-- ===== src/Torrent/Priority/Overlap.antt =====
-- Which files internal/torrent/priority.go lets decide about a piece, and which pieces about a file.
use go_torrent.Base.{
  ℕ, zero, suc, ◌+◌, ◌*◌, ◌≤◌, ◌<◌, ◌≡◌, refl, ◌∙◌, inl, inr, true, false, ◌&&◌, List, [], ◌∷◌,
  arith, ltb, leb, if◌then◌else◌, Bool-cases, get_or,
}
use go_torrent.Metainfo.{num_pieces, MetaInfo, piece_len, is_pure_v2}
use go_torrent.Picker.{Priority, skip}
use go_torrent.Torrent.Priority.{
  level, file_lengths, normalized_file_priorities, FileSpan, file_spans, skip_ended, best_from,
  span_priorities, piece_priorities,
}

-- The highest priority of the files that end after the start of a piece and start before its end, by
-- a search through all files.
abbrev pub highest : Priority → ℕ → ℕ → List FileSpan → Priority
highest best a b [] = best
highest best a b (s ∷ ss) =
    highest
      (if ltb a s.end && ltb s.start b && ltb (level best) (level s.priority)
        then s.priority
        else best)
      a b ss

-- The spans follow one another.
abbrev IsRow : ℕ → List FileSpan → Type 0
IsRow o [] = Unit
IsRow o (s ∷ ss) = (s.start ≡ o) × (s.start ≤ s.end) × IsRow s.end ss

file_spans-IsRow :
    (offset : ℕ) (lens : List ℕ) (ps : List Priority) → IsRow offset (file_spans offset lens ps)
unfolding file_spans
file_spans-IsRow offset [] ps = tt
file_spans-IsRow offset (len ∷ lens) [] = tt
file_spans-IsRow offset (len ∷ lens) (p ∷ ps) =
    (refl, omega arith, file_spans-IsRow (offset + len) lens ps)

-- The spans that the code passes are those of no later piece.
highest-skip_ended :
    (best : Priority) (start a b : ℕ) (ss : List FileSpan)
    → start ≤ a
    → highest best a b (skip_ended start ss) ≡ highest best a b ss
unfolding skip_ended
highest-skip_ended best start a b [] h = refl
highest-skip_ended best start a b (s ∷ ss) h = elim (Bool-cases (leb s.end start)) [
  | inl e ↦
      let over : ltb a s.end ≡ false = ground arith in
      rw (e, over) (highest-skip_ended best start a b ss h)
  | inr e ↦ rw e refl
]

highest_beyond :
    (best : Priority) (a b o : ℕ) (ss : List FileSpan)
    → IsRow o ss
    → b ≤ o
    → highest best a b ss ≡ best
highest_beyond best a b o [] r h = refl
highest_beyond best a b o (s ∷ ss) (e, l, r) h =
    let out : ltb s.start b ≡ false = ground arith in
    let no : (ltb a s.end && ltb s.start b && ltb (level best) (level s.priority)) ≡ false =
      ground arith in
    rw no (highest_beyond best a b s.end ss r (omega arith))

-- From a span on that ends after the start of the piece, the loop goes through all that count.
best_from-highest :
    (best : Priority) (a b : ℕ) (s : FileSpan) (ss : List FileSpan)
    → a < s.end
    → s.start ≤ s.end
    → IsRow s.end ss
    → best_from best b (s ∷ ss) ≡ highest best a b (s ∷ ss)
unfolding best_from
best_from-highest best a b s [] h l r = ground arith
best_from-highest best a b s (t ∷ ts) h l r = elim (Bool-cases (ltb s.start b)) [
  | inr e ↦
      let stays = highest_beyond best a b s.end (t ∷ ts) r (ground arith) in
      rw e (ground (arith, stays))
  | inl e ↦
      let after : ltb a s.end ≡ true = ground arith in
      let m = r.0 in
      rw (e, after)
        (best_from-highest (if ltb (level best) (level s.priority) then s.priority else best) a b t
          ts (let k = r.1 in omega arith) r.1 r.2)
]

best_from-skip_ended :
    (best : Priority) (a b o : ℕ) (ss : List FileSpan)
    → IsRow o ss
    → best_from best b (skip_ended a ss) ≡ highest best a b ss
unfolding skip_ended best_from
best_from-skip_ended best a b o [] r = refl
best_from-skip_ended best a b o (s ∷ ss) (e, l, r) = elim (Bool-cases (leb s.end a)) [
  | inl t ↦
      let over : ltb a s.end ≡ false = ground arith in
      rw (t, over) (best_from-skip_ended best a b s.end ss r)
  | inr t ↦ rw t (best_from-highest best a b s ss (ground arith) l r)
]

skip_ended-IsRow :
    (start o : ℕ) (ss : List FileSpan) → IsRow o ss → (p : ℕ) × IsRow p (skip_ended start ss)
unfolding skip_ended
skip_ended-IsRow start o [] r = (o, tt)
skip_ended-IsRow start o (s ∷ ss) r = elim (Bool-cases (leb s.end start)) [
  | inl e ↦ rw e (skip_ended-IsRow start s.end ss r.2)
  | inr e ↦ rw e (o, r)
]

-- The spans from `si` on decide about piece `i` and those that follow as all spans do.
abbrev Decide : ℕ → List FileSpan → List FileSpan → Type 0
Decide start ss all =
    (best : Priority) (a b : ℕ) → start ≤ a → highest best a b ss ≡ highest best a b all

suc_mul : (i n : ℕ) → suc i * n ≡ i * n + n
suc_mul i n = ground arith

span_priorities-highest :
    (mi : MetaInfo) (k i j o : ℕ) (ss all : List FileSpan)
    → IsRow o ss
    → Decide (i * mi.piece_length) ss all
    → j < k
    → get_or (span_priorities mi k i ss) j skip
      ≡ highest skip
          ((i + j) * mi.piece_length)
          ((i + j) * mi.piece_length + piece_len mi (i + j))
          all
unfolding span_priorities
span_priorities-highest mi zero i j o ss all r d h = absurd (omega arith)
span_priorities-highest mi (suc k) i zero o ss all r d h =
    let a = i * mi.piece_length in
    let here : i + 0 ≡ i = omega arith in
    rw here (
      best_from-skip_ended skip a (a + piece_len mi i) o ss r
      ∙ d skip a (a + piece_len mi i) (omega arith))
span_priorities-highest mi (suc k) i (suc j) o ss all r d h =
    let a = i * mi.piece_length in
    let here : i + suc j ≡ suc i + j = omega arith in
    let up : a ≤ suc i * mi.piece_length = omega (arith, suc_mul i mi.piece_length) in
    let rest = skip_ended-IsRow a o ss r in
    rw here (
      span_priorities-highest mi k (suc i) j rest.0 (skip_ended a ss) all rest.1
        (λ best c e l. highest-skip_ended best a c e ss (omega arith) ∙ d best c e (omega arith))
        (omega arith))

-- In a torrent that is not of version 2 alone, each piece has the highest priority of all files
-- that end after its start and start before its end, or is skipped where there are none.
pub piece_priorities-highest :
    (mi : MetaInfo) (file_priorities : List Priority) (p : ℕ)
    → is_pure_v2 mi ≡ false
    → p < num_pieces mi
    → get_or (piece_priorities mi file_priorities) p skip
      ≡ highest skip
          (p * mi.piece_length)
          (p * mi.piece_length + piece_len mi p)
          (file_spans 0 (file_lengths mi) (normalized_file_priorities mi file_priorities))
unfolding piece_priorities
piece_priorities-highest mi file_priorities p v1 h =
    let spans = file_spans 0 (file_lengths mi) (normalized_file_priorities mi file_priorities) in
    let row =
      file_spans-IsRow 0 (file_lengths mi) (normalized_file_priorities mi file_priorities) in
    let here : 0 + p ≡ p = omega arith in
    let r =
      span_priorities-highest mi (num_pieces mi) 0 p 0 spans spans row (λ best a b l. refl) h in
    rw v1 (rw here at r)
