-- ===== src/Dht/Changes.antt =====
-- The invariant of the whole table of internal/dht/table.go, over any run of changes.
use go_torrent.Base.{
  ℕ, zero, suc, ◌+◌, ◌≡◌, refl, ◌∙◌, inl, inr, false, List, [], ◌∷◌, arith, Bool-cases, length,
  get_or, set, replicate, length-set, length-replicate,
}
use go_torrent.Dht.Id.{NodeId, same_id}
use go_torrent.Dht.Table.{num_buckets, Bucket, Table, new_table, bucket_index, insert, mark_failed}
use go_torrent.Dht.Buckets.{Fits, insert_contact-Fits, fail_contact-Fits}

-- The bucket `k` of the table of `self`: at most eight contacts, each once, none of them `self`, all
-- with the index `k`.
abbrev pub Belongs : NodeId → ℕ → NodeId → Type 0
Belongs self k id = (bucket_index self id ≡ k) × (same_id id self ≡ false)

module _ (self : NodeId) where
  abbrev pub AllFit : ℕ → List Bucket → Type 0
  AllFit k [] = Unit
  AllFit k (b ∷ bs) = Fits (Belongs self k) b × AllFit (suc k) bs

  set-AllFit :
      (k i : ℕ) (bs : List Bucket) (b : Bucket)
      → AllFit k bs
      → Fits (Belongs self (i + k)) b
      → AllFit k (set bs i b)
  set-AllFit k i [] b h f = tt
  set-AllFit k zero (x ∷ xs) b h f = let e : 0 + k ≡ k = omega arith in (rw e at f, h.1)
  set-AllFit k (suc i) (x ∷ xs) b h f =
      let e : suc i + k ≡ i + suc k = omega arith in
      (h.0, set-AllFit (suc k) i xs b h.1 (rw e at f))

  get_or-AllFit :
      (k i : ℕ) (bs : List Bucket) → AllFit k bs → Fits (Belongs self (i + k)) (get_or bs i [])
  get_or-AllFit k i [] h = record { each = tt; distinct = tt; small = omega arith }
  get_or-AllFit k zero (x ∷ xs) h = let e : 0 + k ≡ k = omega arith in rw e h.0
  get_or-AllFit k (suc i) (x ∷ xs) h =
      let e : suc i + k ≡ i + suc k = omega arith in rw e (get_or-AllFit (suc k) i xs h.1)

  AllFit-replicate : (k n : ℕ) → AllFit k (replicate n [])
  AllFit-replicate k zero = tt
  AllFit-replicate k (suc n) =
      (record { each = tt; distinct = tt; small = omega arith }, AllFit-replicate (suc k) n)

pub record IsValid (t : Table) : Type 0 where
  pub whole : length t.buckets ≡ num_buckets
  pub filled : AllFit t.self 0 t.buckets

insert-IsValid :
    (t : Table) (now : ℕ) (id : NodeId) (addr : ℕ) → IsValid t → IsValid (insert t now id addr)
unfolding insert
insert-IsValid t now id addr v = elim (Bool-cases (same_id id t.self)) [
  | inl e ↦ rw e v
  | inr e ↦
      let i = bucket_index t.self id in
      let at_i : i + 0 ≡ i = omega arith in
      let here : Fits (Belongs t.self i) (get_or t.buckets i []) =
        rw at_i at (get_or-AllFit t.self 0 i t.buckets v.filled) in
      rw e (record {
        whole = length-set t.buckets i _ ∙ v.whole;
        filled =
            set-AllFit t.self 0 i t.buckets _ v.filled
              (rw at_i (insert_contact-Fits (Belongs t.self i) now _ id addr (refl, e) here));
      })
]

mark_failed-IsValid : (t : Table) (id : NodeId) → IsValid t → IsValid (mark_failed t id)
unfolding mark_failed
mark_failed-IsValid t id v = elim (Bool-cases (same_id id t.self)) [
  | inl e ↦ rw e v
  | inr e ↦
      let i = bucket_index t.self id in
      let at_i : i + 0 ≡ i = omega arith in
      let here : Fits (Belongs t.self i) (get_or t.buckets i []) =
        rw at_i at (get_or-AllFit t.self 0 i t.buckets v.filled) in
      rw e (record {
        whole = length-set t.buckets i _ ∙ v.whole;
        filled =
            set-AllFit t.self 0 i t.buckets _ v.filled
              (rw at_i (fail_contact-Fits (Belongs t.self i) _ id here));
      })
]

-- What a node does to its table: a contact was heard of, or did not answer.
pub data Change : Type 0 where
  heard : ℕ → NodeId → ℕ → Change
  failed : NodeId → Change

pub changed : Table → List Change → Table
changed t [] = t
changed t (heard now id addr ∷ cs) = changed (insert t now id addr) cs
changed t (failed id ∷ cs) = changed (mark_failed t id) cs

changed-IsValid : (t : Table) (cs : List Change) → IsValid t → IsValid (changed t cs)
unfolding changed
changed-IsValid t [] v = v
changed-IsValid t (heard now id addr ∷ cs) v =
    changed-IsValid (insert t now id addr) cs (insert-IsValid t now id addr v)
changed-IsValid t (failed id ∷ cs) v =
    changed-IsValid (mark_failed t id) cs (mark_failed-IsValid t id v)

-- Whatever a node hears, each of the 160 buckets of its table holds at most eight contacts, each
-- once, none of them the node itself, all of them in the bucket of their distance.
pub changed-new_table : (self : NodeId) (cs : List Change) → IsValid (changed (new_table self) cs)
unfolding new_table
changed-new_table self cs = changed-IsValid _ cs (record {
  whole = length-replicate {A = Bucket} num_buckets [];
  filled = AllFit-replicate self 0 num_buckets;
})
