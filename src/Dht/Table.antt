-- ===== src/Dht/Table.antt =====
-- Buckets and the table: internal/dht/table.go. An address is a number, into which nothing looks,
-- and `now` is `time.Now()`. A contact that is found is the first with its identifier, which is what
-- the pointer stands for.
use go_torrent.Base.{
  sort_by, ℕ, ◌+◌, ◌-◌, Bool, not, ◌&&◌, Option, none, some, List, [], ◌∷◌, ◌++◌, map, ltb, leb,
  ◌==◌, if◌then◌else◌, length, get_or, set, take, replicate,
}
use go_torrent.Dht.Id.{NodeId, xor, less, same_id, common_prefix_len}

abbrev pub bucket_size : ℕ
bucket_size = 8

abbrev pub num_buckets : ℕ
num_buckets = 160

-- 15 minutes in nanoseconds.
abbrev pub questionable_after : ℕ
questionable_after = 900000000000

abbrev pub bad_after_failures : ℕ
bad_after_failures = 3

pub record Contact : Type 0 where
  pub id : NodeId
  pub addr : ℕ
  pub last_seen : ℕ
  pub failed_queries : ℕ

pub record NodeAddr : Type 0 where
  pub id : NodeId
  pub addr : ℕ

abbrev pub Bucket : Type 0
Bucket = List Contact

pub record Table : Type 0 where
  pub self : NodeId
  pub buckets : List Bucket

unfoldable pub is_good : ℕ → Contact → Bool
is_good now c = c.failed_queries == 0 && ltb (now - c.last_seen) questionable_after

unfoldable pub is_bad : Contact → Bool
is_bad c = leb bad_after_failures c.failed_queries

unfoldable pub find_contact : Bucket → NodeId → Option Contact
find_contact [] id = none
find_contact (c ∷ cs) id = let rest = find_contact cs id in if same_id c.id id then some c else rest

-- `moveToTail` and the changes before it: the contact found leaves its place.
unfoldable pub without : Bucket → NodeId → Bucket
without [] id = []
without (c ∷ cs) id = let rest = without cs id in if same_id c.id id then cs else c ∷ rest

unfoldable pub replace_bad : Bucket → Contact → Bucket
replace_bad [] new = []
replace_bad (c ∷ cs) new = let rest = replace_bad cs new in if is_bad c then new ∷ cs else c ∷ rest

unfoldable pub insert_contact : ℕ → Bucket → NodeId → ℕ → Bucket
insert_contact now b id addr = elim (find_contact b id) [
  | some c ↦
      without b id ++ (record { id = c.id; addr = addr; last_seen = now; failed_queries = 0 } ∷ [])
  | none ↦
      let new : Contact = record { id = id; addr = addr; last_seen = now; failed_queries = 0 } in
      if ltb (length b) bucket_size then b ++ (new ∷ []) else replace_bad b new
]

unfoldable pub new_table : NodeId → Table
new_table self = record { self = self; buckets = replicate num_buckets [] }

unfoldable pub bucket_index : NodeId → NodeId → ℕ
bucket_index self id =
    let i = common_prefix_len self id in if leb num_buckets i then num_buckets - 1 else i

unfoldable pub insert : Table → ℕ → NodeId → ℕ → Table
insert t now id addr =
    if same_id id t.self
    then t
    else let i = bucket_index t.self id in
      record t { buckets = set t.buckets i (insert_contact now (get_or t.buckets i []) id addr) }

unfoldable pub fail_contact : Bucket → NodeId → Bucket
fail_contact [] id = []
fail_contact (c ∷ cs) id =
    let rest = fail_contact cs id in
    if same_id c.id id then record c { failed_queries = c.failed_queries + 1 } ∷ cs else c ∷ rest

unfoldable pub mark_failed : Table → NodeId → Table
mark_failed t id =
    if same_id id t.self
    then t
    else let i = bucket_index t.self id in
      record t { buckets = set t.buckets i (fail_contact (get_or t.buckets i []) id) }

abbrev pub node_addr : Contact → NodeAddr
node_addr c = record { id = c.id; addr = c.addr }

unfoldable pub all_nodes : List Bucket → List NodeAddr
all_nodes [] = []
all_nodes (b ∷ bs) = map node_addr b ++ all_nodes bs

unfoldable pub all_contacts : Table → List NodeAddr
all_contacts t = all_nodes t.buckets

unfoldable pub closer : NodeId → NodeAddr → NodeAddr → Bool
closer target a b = less (xor target a.id) (xor target b.id)

-- A `k` below 0 would be a panic in the source; its callers ask for 8.
unfoldable pub find_closest : Table → NodeId → ℕ → List NodeAddr
find_closest t target k = take k (sort_by (closer target) (all_contacts t))

unfoldable pub questionable_of : ℕ → Bucket → List NodeAddr
questionable_of now [] = []
questionable_of now (c ∷ cs) =
    let rest = questionable_of now cs in
    if not (is_good now c) && not (is_bad c) then node_addr c ∷ rest else rest

unfoldable pub questionable_nodes : ℕ → List Bucket → List NodeAddr
questionable_nodes now [] = []
questionable_nodes now (b ∷ bs) = questionable_of now b ++ questionable_nodes now bs

unfoldable pub questionable : ℕ → Table → List NodeAddr
questionable now t = questionable_nodes now t.buckets

unfoldable pub count_contacts : List Bucket → ℕ
count_contacts [] = 0
count_contacts (b ∷ bs) = length b + count_contacts bs
