-- ===== src/Choker.antt =====
-- Tit-for-tat unchoking: internal/choker/choker.go. A peer's identifier, a string that is never
-- empty, is a number; the empty `optimistic` and the zero `lastRotation` are `none`. `lastBytes` is a
-- function that is 0 where the map has no entry. `draw n` is `rng.Intn(n)`, and times are natural
-- numbers. A Choke or Unchoke message is an effect.
pub mod Ranking
pub mod Slots
pub mod Settling
mod Tests
use go_torrent.Base.{
  ℕ, ◌-◌, Bool, true, false, not, ◌&&◌, ◌||◌, Option, none, some, List, [], ◌∷◌, ◌++◌, ltb, leb,
  ◌==◌, if◌then◌else◌, length, get_elem?, take, ℤ, pos, negsuc,
}

pub record Peer : Type 0 where
  pub id : ℕ
  pub interested : Bool
  pub choking : Bool
  pub downloaded : ℕ

pub record Choker : Type 0 where
  pub slots : ℕ
  pub rotation : ℕ
  pub last_bytes : ℕ → ℕ
  pub last_rotation : Option ℕ
  pub optimistic : Option ℕ

pub record RankedPeer : Type 0 where
  pub peer : Peer
  pub rate : ℕ

pub data Effect : Type 0 where
  choke : ℕ → Effect
  unchoke : ℕ → Effect

-- `New` with its options: fewer than one slot is one.
unfoldable pub new : ℤ → ℕ → Choker
new slots rotation = record {
  slots = elim slots [ negsuc n ↦ 1 | pos n ↦ if ltb n 1 then 1 else n ];
  rotation = rotation;
  last_bytes = λ _. 0;
  last_rotation = none;
  optimistic = none;
}

unfoldable pub store : (ℕ → ℕ) → ℕ → ℕ → ℕ → ℕ
store m k v j = if j == k then v else m j

-- What the first loop of `Run` leaves.
pub record Ranked : Type 0 where
  pub ranked : List RankedPeer
  pub last_bytes : ℕ → ℕ
  pub effects : List Effect

-- A rate that would be negative is 0, as `-` leaves it.
unfoldable pub rank : List Peer → (ℕ → ℕ) → Ranked
rank [] m = record { ranked = []; last_bytes = m; effects = [] }
rank (p ∷ ps) m =
    let rest = rank ps (store m p.id p.downloaded) in
    if not p.interested
    then record rest { effects = if p.choking then rest.effects else choke p.id ∷ rest.effects }
    else record rest { ranked = record { peer = p; rate = p.downloaded - m p.id } ∷ rest.ranked }

-- `sort.SliceStable`, the fastest first.
unfoldable pub insert : RankedPeer → List RankedPeer → List RankedPeer
insert x [] = x ∷ []
insert x (y ∷ ys) = let rest = insert x ys in if leb y.rate x.rate then x ∷ y ∷ ys else y ∷ rest

unfoldable pub sort : List RankedPeer → List RankedPeer
sort [] = []
sort (x ∷ xs) = insert x (sort xs)

-- The map of the peers to unchoke is the list of its keys.
unfoldable pub mem : ℕ → List ℕ → Bool
mem i [] = false
mem i (j ∷ js) = i == j || mem i js

unfoldable pub ids : List RankedPeer → List ℕ
ids [] = []
ids (rp ∷ rps) = rp.peer.id ∷ ids rps

unfoldable pub contains_id : List RankedPeer → ℕ → Bool
contains_id [] i = false
contains_id (rp ∷ rps) i = rp.peer.id == i || contains_id rps i

unfoldable pub candidates : List RankedPeer → List ℕ → List RankedPeer
candidates [] chosen = []
candidates (rp ∷ rps) chosen =
    let rest = candidates rps chosen in if mem rp.peer.id chosen then rest else rp ∷ rest

unfoldable pub still_eligible : Choker → List RankedPeer → List ℕ → Bool
still_eligible c ranked chosen = elim c.optimistic [
  | none ↦ false
  | some i ↦ not (mem i chosen) && contains_id ranked i
]

unfoldable pub is_due : Choker → ℕ → Bool
is_due c now = elim c.last_rotation [ none ↦ true | some t ↦ leb c.rotation (now - t) ]

abbrev with_optimistic : Choker → List ℕ → Choker × List ℕ
with_optimistic c chosen = elim c.optimistic [ none ↦ (c, chosen) | some i ↦ (c, i ∷ chosen) ]

-- A draw out of range, which `Intn` never makes, would panic.
unfoldable pub pick_optimistic : Choker → (ℕ → ℕ) → List RankedPeer → List ℕ → ℕ → Choker × List ℕ
pick_optimistic c draw [] chosen now = (record c { optimistic = none }, chosen)
pick_optimistic c draw (r ∷ rs) chosen now =
    let ranked = r ∷ rs in
    if not (still_eligible c ranked chosen) || is_due c now
    then (let cs = candidates ranked chosen in
        elim (get_elem? cs (draw (length cs))) [
          | none ↦ (record c { optimistic = none; last_rotation = some now }, chosen)
          | some rp ↦ (
            record c { optimistic = some rp.peer.id; last_rotation = some now },
            rp.peer.id ∷ chosen,
          )
        ])
    else with_optimistic c chosen

-- The last loop of `Run`.
unfoldable pub settle : List RankedPeer → List ℕ → List Effect
settle [] chosen = []
settle (rp ∷ rps) chosen =
    let rest = settle rps chosen in
    if mem rp.peer.id chosen
    then (if rp.peer.choking then unchoke rp.peer.id ∷ rest else rest)
    else (if rp.peer.choking then rest else choke rp.peer.id ∷ rest)

-- One of the slots is kept for the optimistic pick while there is anyone to pick.
unfoldable pub regular_slots : ℕ → List RankedPeer → ℕ
regular_slots slots [] = slots
regular_slots slots (r ∷ rs) = slots - 1

pub record Round : Type 0 where
  pub choker : Choker
  pub chosen : List ℕ
  pub effects : List Effect

unfoldable pub run : Choker → (ℕ → ℕ) → List Peer → ℕ → Round
run c draw peers now =
    let r = rank peers c.last_bytes in
    let ranked = sort r.ranked in
    let regular = ids (take (regular_slots c.slots ranked) ranked) in
    let picked = pick_optimistic (record c { last_bytes = r.last_bytes }) draw ranked regular now in
    record { choker = picked.0; chosen = picked.1; effects = r.effects ++ settle ranked picked.1 }

unfoldable pub reap : Choker → (ℕ → Bool) → Choker
reap c still_connected = record c {
  last_bytes = λ i. if still_connected i then c.last_bytes i else 0;
}
