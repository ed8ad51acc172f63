-- ===== src/Ws/Masking.antt =====
-- Masking a payload twice with one key gives it back: internal/ws/frame.go.
use go_torrent.Base.{
  ℕ, suc, ◌%◌, ◌<◌, ◌≡◌, refl, ap, ap₂, [], ◌∷◌, arith, length, get_or, get_or-All,
}
use go_torrent.Bytes.{Bytes, IsBytes}
use go_torrent.Bits.Xor.{bit_xor_twice}
use go_torrent.Ws.Frame.{apply_mask}

pub apply_mask_twice :
    (key : Bytes) (i : ℕ) (xs : Bytes)
    → IsBytes key
    → IsBytes xs
    → apply_mask key i (apply_mask key i xs) ≡ xs
unfolding apply_mask
apply_mask_twice key i [] hk h = refl
apply_mask_twice key i (x ∷ xs) hk h =
    ap₂ (λ y ys. y ∷ ys)
      (bit_xor_twice x (get_or key (i % 4) 0) h.0
        (get_or-All (λ b. b < 256) key (i % 4) 0 (omega arith) hk))
      (apply_mask_twice key (suc i) xs hk h.1)

pub length-apply_mask :
    (key : Bytes) (i : ℕ) (xs : Bytes) → length (apply_mask key i xs) ≡ length xs
unfolding apply_mask
length-apply_mask key i [] = refl
length-apply_mask key i (x ∷ xs) = ap suc (length-apply_mask key (suc i) xs)
