-- ===== src/Bitfield/Indexed.antt =====
-- A bitfield as a set of piece indices: what each operation does to every index.
use go_torrent.Base.{
  ℕ, zero, suc, ◌+◌, ◌≤◌, ◌<◌, ◌≡◌, refl, ap, ◌∙◌, false, not, ◌&&◌, ◌||◌, leb, ltb, ◌==◌, ℤ, pos,
  negsuc, arith,
}
use go_torrent.Bitfield.{Bitfield, new, has, set, clear, fill, full}
use go_torrent.Bitfield.Invariant.{
  IsValid, bit_at, bit_at-set, bit_at-clear, has-bit_at, set-IsValid, clear-IsValid, in_width,
  fill-IsValid, new-IsValid, bit_at-replicate,
}

module _ (b : Bitfield) (i j : ℕ) (v : IsValid b) where
  -- On a valid bitfield, after `Set(i)` for an `i` that is not negative, exactly the old indices
  -- and `i`, if it is in range, are set.
  pub has-set : has (set b (pos i)) (pos j) ≡ (i == j && not (leb b.n i) || has b (pos j))
  unfolding set
  has-set = rw (has-bit_at (set b (pos i)) j (set-IsValid b (pos i) v)) (
      ground (
        arith,
        has-bit_at b j v,
        has-bit_at b i v,
        v.padded i,
        bit_at-set b.bits i j v.is_bytes,
        in_width b i v,
        ap (bit_at b.bits) {x = i} {y = j},
      ))

  -- On a valid bitfield, after `Clear(i)` for an `i` that is not negative, exactly the old indices
  -- but `i` are set.
  pub has-clear : has (clear b (pos i)) (pos j) ≡ (not (i == j) && has b (pos j))
  unfolding clear
  has-clear = rw (has-bit_at (clear b (pos i)) j (clear-IsValid b (pos i) v)) (
      ground (
        arith,
        has-bit_at b j v,
        has-bit_at b i v,
        v.padded i,
        bit_at-clear b.bits i j v.is_bytes,
        in_width b i v,
        ap (bit_at b.bits) {x = i} {y = j},
      ))

pub set-n : (b : Bitfield) (i : ℤ) → (set b i).n ≡ b.n
unfolding set
set-n b (negsuc k) = refl
set-n b (pos i) = ground arith

pub clear-n : (b : Bitfield) (i : ℤ) → (clear b i).n ≡ b.n
unfolding clear
clear-n b (negsuc k) = refl
clear-n b (pos i) = ground arith

set-count :
    (b : Bitfield) (i : ℕ) → i < b.n → has b (pos i) ≡ false → (set b (pos i)).count ≡ b.count + 1
unfolding set
set-count b i h off = ground arith

module _ (n : ℕ) where
  fill_new : ℕ → Bitfield
  fill_new k = fill k (new (pos n))

  fill_new-n : (k : ℕ) → (fill_new k).n ≡ n
  unfolding fill_new fill new
  fill_new-n zero = refl
  fill_new-n (suc k) = set-n _ (pos k) ∙ fill_new-n k

  fill_new-has : (k j : ℕ) → has (fill_new k) (pos j) ≡ (ltb j k && ltb j n)
  unfolding fill_new fill
  fill_new-has zero j =
      has-bit_at _ j (new-IsValid (pos n)) ∙ unfold new in bit_at-replicate _ j ∙ ground arith
  fill_new-has (suc k) j =
      has-set (fill_new k) k j (fill-IsValid k _ (new-IsValid (pos n)))
      ∙ ground (arith, fill_new-has k j, fill_new-n k)

  fill_new-count : (k : ℕ) → k ≤ n → (fill_new k).count ≡ k
  unfolding fill_new fill
  fill_new-count zero h = unfold new in refl
  fill_new-count (suc k) h =
      set-count (fill_new k) k (rw (fill_new-n k) h) (fill_new-has k k ∙ ground arith)
      ∙ omega (arith, fill_new-count k (omega arith))

  -- A seeder's bitfield has every piece and no other index, and counts them all.
  pub has-full :
      (j : ℕ) → (has (full n) (pos j) ≡ ltb j n) × ((full n).count ≡ n) × ((full n).n ≡ n)
  unfolding full fill_new
  has-full j = (fill_new-has n j ∙ ground arith, fill_new-count n (omega arith), fill_new-n n)
