-- ===== src/Cache/WriteThrough.antt =====
-- `RecordCache::Write`: what it changes of the file's content.
use native.Mathlib.Nat.{le_antisymm}
use dcfs_client.Base.{
  ℕ, ◌+◌, ◌-◌, ◌*◌, ◌≤◌, ◌<◌, ◌≡◌, refl, sym, ap, ap₂, subst, ◌∙◌, true, false, Memory, memcpy,
  arith, ◌⊎◌, ℕ_discrete, ◌==◌, ==_iff, inl, inr, block-le, if◌then◌else◌,
}
use dcfs_client.Crypto.{OpenSsl}
use dcfs_client.Cache.{Host, Cache, Reader}
use dcfs_client.Cache.View.{IsValid, block_of}
use dcfs_client.Cache.CopyOut.{memcpy-in, memcpy-before, memcpy-behind}
use dcfs_client.Cache.CopyIn.{
  patched, dirtied, patched_self, patched_ne, SameSlots, SameSlots-trans, put-SameSlots, PutBlocks,
}

-- What a write of `size` bytes at byte `so` of block `st` makes of the blocks, where it ends before
-- byte `eo` of block `ed`: the buffer in its range and the old bytes around it, but for the first
-- byte behind the range, which a write that reaches another block takes from `buf[size]`.
pub record WritesIn (bs : ℕ) (c : Cache) (st so ed eo size : ℕ) (buf : Memory) (d : Cache)
    : Type 0 where
  pub same : SameSlots c d
  pub inside :
      (k o i : ℕ) → o < bs → i < size → st * bs + so + i ≡ k * bs + o → block_of d k o ≡ buf i
  pub spill : block_of d ed eo ≡ (if st == ed then block_of c ed eo else buf size)
  pub below : (k o : ℕ) → o < bs → k * bs + o < st * bs + so → block_of d k o ≡ block_of c k o
  pub above :
      (k o : ℕ) → o < bs → st * bs + so + size < k * bs + o → block_of d k o ≡ block_of c k o
  pub marked : (k : ℕ) → st ≤ k → k ≤ ed → d.dirty k ≡ true

-- A position has one block and one place in it.
same_block : (bs st k o i : ℕ) → k * bs + o ≡ st * bs + i → o < bs → i < bs → (k ≡ st) × (o ≡ i)
same_block bs st k o i e lo li =
    let q : k ≡ st =
      le_antisymm (block-le k st bs i (omega arith) li) (block-le st k bs o (omega arith) lo) in
    let r : k * bs ≡ st * bs = ap (λ t. t * bs) q in (q, omega arith)

module _ (bs : ℕ) (c : Cache) (v : IsValid c) (st so size : ℕ) (buf : Memory) (in_block : so < bs)
    (here : c.cached st ≡ true) where
  abbrev pub whole : Memory
  whole = memcpy (block_of c st) so buf 0 size

  -- Of a block other than `st`, and of `st` outside the copied range, nothing changes.
  one_block_kept :
      (k o : ℕ)
      → (k ≡ st → (o < so) ⊎ (so + size ≤ o))
      → block_of (patched c st whole) k o ≡ block_of c k o
  one_block_kept k o f = elim (ℕ_discrete st k) [
    | no n ↦ ap (λ (b : Memory). b o) (patched_ne c st k whole n)
    | yes q ↦
        subst (λ (k : ℕ). block_of (patched c st whole) k o ≡ block_of c k o) q
          (patched_self c st o whole ∙ elim (f (sym q)) [
            | inl l ↦ memcpy-before (block_of c st) buf so 0 size o l
            | inr l ↦ memcpy-behind (block_of c st) buf so 0 size o l
          ])
  ]

  pub one_block-WritesIn :
      (eo : ℕ)
      → eo < bs
      → st * bs + so + size ≡ st * bs + eo
      → WritesIn bs c st so st eo size buf (dirtied (patched c st whole) st)
  one_block-WritesIn eo l e = record {
    same = put-SameSlots c st whole v here;
    inside = λ k o i lo li p.
        let (q, r) = same_block bs st k o (so + i) (omega arith) lo (omega arith) in
        ap₂ (block_of (patched c st whole)) q r
        ∙ patched_self c st (so + i) whole
        ∙ memcpy-in (block_of c st) buf so 0 size i (so + i) li refl
        ∙ ap buf (omega arith);
    spill = one_block_kept st eo (λ _. inr (omega arith)) ∙ rw ((==_iff st st).1 refl) refl;
    below = λ k o lo p.
        one_block_kept k o
          (λ q. let r : k * bs ≡ st * bs = ap (λ t. t * bs) q in inl (omega arith));
    above = λ k o lo p.
        one_block_kept k o
          (λ q. let r : k * bs ≡ st * bs = ap (λ t. t * bs) q in inr (omega arith));
    marked = λ k a b. ground arith;
  }

module _ (h : Host) (ssl : OpenSsl) (reader : Reader) (junk : Memory) (c : Cache) (v : IsValid c)
    (st so size : ℕ) (buf : Memory) (in_block : so < h.block_size) (here : c.cached st ≡ true) where
  abbrev bs : ℕ
  bs = h.block_size

  abbrev head : Memory
  head = memcpy (block_of c st) so buf 0 (bs - so)

  abbrev pub started : Cache
  started = dirtied (patched c st head) st

  -- `n` whole blocks stand between the first and the last.
  module _ (n eo spot : ℕ) (mid : Cache)
      (put : PutBlocks h ssl reader junk buf started n (st + 1) (bs - so) mid)
      (there : mid.cached (st + 1 + n) ≡ true) (last : eo < bs) (spot_eq : spot ≡ bs - so + n * bs)
      (end_eq : st * bs + so + size ≡ (st + 1 + n) * bs + eo) where
    abbrev ed : ℕ
    ed = st + 1 + n

    abbrev tail : Memory
    tail = memcpy (block_of mid ed) 0 buf spot (eo + 1)

    abbrev pub finished : Cache
    finished = dirtied (patched mid ed tail) ed

    before_last : (k : ℕ) → k < ed → block_of finished k ≡ block_of mid k
    before_last k l = patched_ne mid ed k tail (λ e. omega arith)

    in_last : (o : ℕ) → o ≤ eo → block_of finished ed o ≡ buf (spot + o)
    in_last o l =
        patched_self mid ed o tail
        ∙ memcpy-in (block_of mid ed) buf 0 spot (eo + 1) o o (omega arith) (omega arith)

    in_first : (o : ℕ) → so ≤ o → o < bs → block_of finished st o ≡ buf (o - so)
    in_first o a b =
        ap (λ (m : Memory). m o) (before_last st (omega arith) ∙ put.below st (omega arith))
        ∙ patched_self c st o head
        ∙ memcpy-in (block_of c st) buf so 0 (bs - so) (o - so) o (omega arith) (omega arith)
        ∙ ap buf (omega arith)

    many-inside :
        (k o i : ℕ)
        → o < bs
        → i < size
        → st * bs + so + i ≡ k * bs + o
        → block_of finished k o ≡ buf i
    many-inside k o i lo li p =
        let low = block-le st k bs o (omega arith) lo in
        let high = block-le k ed bs eo (omega arith) last in
        elim (ℕ_discrete k st) [
          | yes e ↦
              let r : k * bs ≡ st * bs = ap (λ t. t * bs) e in
              ap (λ (k : ℕ). block_of finished k o) e
              ∙ in_first o (omega arith) lo
              ∙ ap buf (omega arith)
          | no e ↦ elim (ℕ_discrete k ed) [
            | yes e' ↦
                let r : k * bs ≡ ed * bs = ap (λ t. t * bs) e' in
                ap (λ (k : ℕ). block_of finished k o) e'
                ∙ in_last o (omega arith)
                ∙ ap buf (omega arith)
            | no e' ↦
                let q : k ≡ st + 1 + (k - (st + 1)) = omega arith in
                let r : k * bs ≡ (st + 1 + (k - (st + 1))) * bs = ap (λ t. t * bs) q in
                ap (λ (k : ℕ). block_of finished k o) q
                ∙ ap (λ (m : Memory). m o) (before_last _ (omega arith))
                ∙ put.blocks (k - (st + 1)) o (omega arith) lo
                ∙ ap buf (omega arith)
          ]
        ]

    many-below :
        (k o : ℕ) → o < bs → k * bs + o < st * bs + so → block_of finished k o ≡ block_of c k o
    many-below k o lo p =
        let low = block-le k st bs so (omega arith) in_block in
        ap (λ (m : Memory). m o) (before_last k (omega arith) ∙ put.below k (omega arith))
        ∙ elim (ℕ_discrete st k) [
          | no e ↦ ap (λ (m : Memory). m o) (patched_ne c st k head e)
          | yes e ↦
              let r : st * bs ≡ k * bs = ap (λ t. t * bs) e in
              subst (λ (k : ℕ). block_of started k o ≡ block_of c k o) e
                (patched_self c st o head
                  ∙ memcpy-before (block_of c st) buf so 0 (bs - so) o (omega arith))
        ]

    many-above :
        (k o : ℕ)
        → o < bs
        → st * bs + so + size < k * bs + o
        → block_of finished k o ≡ block_of c k o
    many-above k o lo p =
        let high = block-le ed k bs o (omega arith) lo in
        (elim (ℕ_discrete ed k) [
          | no e ↦ ap (λ (m : Memory). m o) (patched_ne mid ed k tail e)
          | yes e ↦
              let r : ed * bs ≡ k * bs = ap (λ t. t * bs) e in
              subst (λ (k : ℕ). block_of finished k o ≡ block_of mid k o) e
                (patched_self mid ed o tail
                  ∙ memcpy-behind (block_of mid ed) buf 0 spot (eo + 1) o (omega arith))
        ])
        ∙ ap (λ (m : Memory). m o)
            (put.above k (omega arith) ∙ patched_ne c st k head (λ e. omega arith))

    many-marked : (k : ℕ) → st ≤ k → k ≤ ed → finished.dirty k ≡ true
    many-marked k a b = elim (ℕ_discrete ed k) [
      | yes e ↦ ground arith
      | no e ↦ elim (ℕ_discrete st k) [
        | yes e' ↦ let d = put.same.still_dirty k (ground arith) in ground (arith, d)
        | no e' ↦ let d = put.marked k (omega arith) (omega arith) in ground (arith, d)
      ]
    ]

    pub many_blocks-WritesIn : WritesIn bs c st so ed eo size buf finished
    many_blocks-WritesIn = record {
      same =
          SameSlots-trans (put-SameSlots c st head v here)
            (SameSlots-trans put.same (put-SameSlots mid ed tail put.same.valid there));
      inside = many-inside;
      spill =
          let z : spot + eo ≡ size = omega arith in
          let t : (st == ed) ≡ false = ground arith in rw t (in_last eo (omega arith) ∙ ap buf z);
      below = many-below;
      above = many-above;
      marked = many-marked;
    }
