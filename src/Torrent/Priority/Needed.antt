-- ===== src/Torrent/Priority/Needed.antt =====
-- Which files internal/torrent/priority.go has on disk.
use native.Mathlib.Nat.{div-mul-le_self, le-div_iff_mul-le}
use go_torrent.Base.{
  ℕ, zero, suc, ◌+◌, ◌-◌, ◌/◌, ◌≤◌, ◌<◌, ◌≡◌, refl, inl, inr, true, false, List, [], ◌∷◌, arith,
  ltb, ◌==◌, Bool-cases, length, get_or,
}
use go_torrent.Metainfo.{MetaInfo, is_pure_v2}
use go_torrent.Picker.{Priority, is_skip, skip}
use go_torrent.Torrent.Priority.{file_lengths, any_wanted, need_from, files_needing_allocation}

div_le : (x y k : ℕ) → 0 < k → x ≤ y → x / k ≤ y / k
div_le x y k h l =
    (le-div_iff_mul-le {k = k} {x = x / k} {y = y} h).1 (omega (arith, div-mul-le_self x k))

any_wanted-one :
    (pp : List Priority) (p k q : ℕ)
    → p ≤ q
    → q < p + k
    → q < length pp
    → is_skip (get_or pp q skip) ≡ false
    → any_wanted pp p k ≡ true
unfolding any_wanted
any_wanted-one pp p zero q from_p to_p l w = absurd (omega arith)
any_wanted-one pp p (suc k) q from_p to_p l w =
    let inside : ltb p (length pp) ≡ true = ground arith in
    elim (Bool-cases (p == q)) [
      | inl e ↦ let same : p ≡ q = ground arith in rw (inside, same) (rw w refl)
      | inr e ↦
          let rest = any_wanted-one pp (suc p) k q (ground arith) (omega arith) l w in
          rw inside (ground (arith, rest))
    ]

-- Where file `j` starts.
abbrev pub file_start : List ℕ → ℕ → ℕ
file_start [] j = 0
file_start (len ∷ lens) zero = 0
file_start (len ∷ lens) (suc j) = len + file_start lens j

need_from-wanted :
    (mi : MetaInfo) (file_priorities pp : List Priority) (i offset j : ℕ) (lens : List ℕ) (x : ℕ)
    → 0 < mi.piece_length
    → j < length lens
    → offset + file_start lens j ≤ x
    → x < offset + file_start lens j + get_or lens j 0
    → x / mi.piece_length < length pp
    → is_skip (get_or pp (x / mi.piece_length) skip) ≡ false
    → get_or (need_from mi file_priorities pp i offset lens) j false ≡ true
unfolding need_from
need_from-wanted mi file_priorities pp i offset j [] x some_length h from_p to_p l w =
    absurd (omega arith)
need_from-wanted mi file_priorities pp i offset zero (len ∷ lens) x some_length h from_p to_p l w =
    elim (Bool-cases (is_skip (get_or file_priorities i skip))) [
      | inr e ↦ rw e refl
      | inl e ↦
          let some_bytes : ltb 0 len ≡ true = ground arith in
          let first = div_le offset x mi.piece_length some_length (omega arith) in
          let last = div_le x (offset + len - 1) mi.piece_length some_length (omega arith) in
          rw (e, some_bytes)
            (any_wanted-one pp (offset / mi.piece_length) _ (x / mi.piece_length) first
              (omega arith) l w)
    ]
need_from-wanted mi file_priorities pp i offset (suc j) (len ∷ lens) x some_length h from_p to_p l
      w =
    need_from-wanted mi file_priorities pp (suc i) (offset + len) j lens x some_length (omega arith)
      (omega arith) (omega arith) l w

-- In a torrent that is not of version 2 alone, with pieces that are not empty: a file with a byte
-- in a piece that is not skipped is among those to be allocated, whatever its own priority.
pub files_needing_allocation-wanted :
    (mi : MetaInfo) (file_priorities pp : List Priority) (j x : ℕ)
    → is_pure_v2 mi ≡ false
    → 0 < mi.piece_length
    → j < length (file_lengths mi)
    → file_start (file_lengths mi) j ≤ x
    → x < file_start (file_lengths mi) j + get_or (file_lengths mi) j 0
    → x / mi.piece_length < length pp
    → is_skip (get_or pp (x / mi.piece_length) skip) ≡ false
    → get_or (files_needing_allocation mi file_priorities pp) j false ≡ true
unfolding files_needing_allocation
files_needing_allocation-wanted mi file_priorities pp j x v1 some_length h from_p to_p l w = rw v1 (
    need_from-wanted mi file_priorities pp 0 0 j (file_lengths mi) x some_length h (omega arith)
      (omega arith) l w)
