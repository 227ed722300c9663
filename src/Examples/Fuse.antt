-- ===== src/Examples/Fuse.antt =====
-- The theorems on the FUSE operations, at a file system that was just mounted and at one with a file.
use dcfs_client.Base.{
  ℕ, ◌+◌, ◌<◌, ◌≡◌, refl, true, false, ◌∷◌, Memory, ascii, arith, bytes_eq, strcmp_eq, c_str, inl,
}
use dcfs_client.Crypto.{hash256}
use dcfs_client.Directory.{new_directory, init_readdir, readdir, found, find_from, find_entry}
use dcfs_client.Mid.{compose_record, put_record}
use dcfs_client.Mid.Modify.{create_new}
use dcfs_client.Backend.{create_new_file}
use dcfs_client.Inodes.{allocate_inode}
use dcfs_client.Dcfs.{done, failed, eexist, Dcfs, dcfs_init, look_up, new_fd}
use dcfs_client.Dcfs.Entries.{file_stat, dcfs_getattr, dcfs_readdir, dcfs_create}
use dcfs_client.Dcfs.Entries.Creation.{create-getattr}
use dcfs_client.Dcfs.Entries.Listing.{names_of, dcfs_readdir_all}
use dcfs_client.Dcfs.Files.{dcfs_read, dcfs_write}
use dcfs_client.Dcfs.Files.NewFile.{create-write-read}
use dcfs_client.Dcfs.Runs.{Reach, Reach-IsValid, descriptors_run_out}
use dcfs_client.Dcfs.Valid.{IsValid}
use dcfs_client.Examples.Toy.{Store, toy_mid, blank, counting}
use dcfs_client.Examples.Serving.{empty_env}

abbrev mounted : Dcfs Store
mounted = dcfs_init toy_mid

abbrev one_created : Dcfs Store
one_created = (dcfs_create empty_env 16 (ascii "/a") mounted).1

creates_one : dcfs_create empty_env 16 (ascii "/a") mounted ≡ (done 11, one_created)
unfolding dcfs_init dcfs_create new_directory look_up find_entry find_from found readdir
    init_readdir allocate_inode new_fd strcmp_eq c_str bytes_eq create_new_file create_new
    compose_record hash256 put_record
creates_one = refl

run_of_one : Reach empty_env 16 blank 1 one_created
run_of_one = Reach.creates 0 mounted one_created (ascii "/a") 11 creates_one (Reach.mounted toy_mid)

Reach-IsValid_example : IsValid 1 one_created
Reach-IsValid_example = Reach-IsValid empty_env 16 blank 1 one_created run_of_one

descriptors_run_out_example : (11 ≡ 0 + 11) × (0 < 245)
descriptors_run_out_example =
    descriptors_run_out empty_env 16 blank 0 mounted one_created (Reach.mounted toy_mid)
      (ascii "/a") 11 (inl creates_one)

not_root : strcmp_eq (ascii "/a") (ascii "/") ≡ false
unfolding strcmp_eq c_str bytes_eq
not_root = refl

is_root : strcmp_eq (ascii "/") (ascii "/") ≡ true
unfolding strcmp_eq c_str bytes_eq
is_root = refl

create-getattr_example :
    ((dcfs_getattr empty_env 16 (ascii "/a") one_created).0 ≡ done (file_stat 0))
    × ((dcfs_create empty_env 16 (ascii "/a") one_created).0 ≡ failed eexist)
create-getattr_example =
    create-getattr empty_env 16 (ascii "/a") mounted one_created 11 creates_one not_root

dcfs_readdir_all_example : dcfs_readdir (ascii "/") one_created ≡ (
  done (ascii "." ∷ ascii ".." ∷ names_of one_created.root.entries),
  record one_created { root = init_readdir one_created.root },
)
dcfs_readdir_all_example = dcfs_readdir_all (ascii "/") one_created is_root

create-write-read_example :
    let (r, u) = dcfs_write empty_env 16 blank (ascii "/a") counting 5 0 11 one_created in
    (r ≡ done 5)
    × (end : Memory) × ((dcfs_read empty_env 16 blank (ascii "/a") blank 5 0 11 u).0
        ≡ done (end, 5))
    × ((i : ℕ) → i < 5 → end i ≡ counting i)
create-write-read_example =
    create-write-read empty_env 16 blank (ascii "/a") (ascii "/a") mounted one_created 11
      creates_one (omega arith) (omega arith) counting blank 5 (omega arith) (omega arith)
