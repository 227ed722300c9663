-- ===== src/Examples/Serving.antt =====
-- A server whose records are all empty.
use dcfs_client.Base.{[], ok}
use dcfs_client.Mid.{Env}
use dcfs_client.Examples.Toy.{Store, toy_env}

abbrev pub empty_env : Env Store
empty_env = record toy_env {
  srv = record {
    read_record = λ dcname name room s. ok [];
    write_record = λ dcname name bytes s. (ok tt, s);
  };
}
