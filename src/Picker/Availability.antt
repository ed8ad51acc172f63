-- ===== src/Picker/Availability.antt =====
-- How many peers hold each piece: internal/picker/availability.go. The callbacks that `Each` runs
-- never stop it. An int32 count is a natural number: it counts connected peers.
use go_torrent.Base.{
  ℕ, suc, ◌-◌, true, not, ◌&&◌, List, [], ◌∷◌, ltb, leb, ◌==◌, if◌then◌else◌, length, get_or, set,
  replicate, ℤ, pos, negsuc,
}
use go_torrent.Bitfield.{Bitfield, each}

unfoldable pub new_availability : ℤ → List ℕ
new_availability (pos n) = replicate n 0
new_availability (negsuc n) = []

unfoldable pub increment : List ℕ → ℕ → List ℕ
increment counts i =
    if ltb i (length counts) then set counts i (suc (get_or counts i 0)) else counts

unfoldable pub decrement : List ℕ → ℕ → List ℕ
decrement counts i =
    if ltb i (length counts) && not (get_or counts i 0 == 0)
    then set counts i (get_or counts i 0 - 1)
    else counts

unfoldable pub add_peer : List ℕ → Bitfield → List ℕ
add_peer counts have = each (λ cs i. record { state = increment cs i; go_on = true }) have counts

unfoldable pub remove_peer : List ℕ → Bitfield → List ℕ
remove_peer counts have = each (λ cs i. record { state = decrement cs i; go_on = true }) have counts

unfoldable pub reset_counts : List ℕ → List ℕ
reset_counts [] = []
reset_counts (c ∷ cs) = 0 ∷ reset_counts cs

unfoldable pub add_have : List ℕ → ℤ → List ℕ
add_have counts (pos i) = increment counts i
add_have counts (negsuc i) = counts

unfoldable pub count_of : List ℕ → ℕ → ℕ
count_of counts i = if leb (length counts) i then 0 else get_or counts i 0
