-- ===== src/Bencode/Keys.antt =====
-- The keys of a map: the order that internal/bencode/encode.go writes them in, and how
-- internal/bencode/decode.go puts them back.
use go_torrent.Base.{insert_by, sort_by, ◌≡◌, refl, ap, true, false, List, [], ◌∷◌, arith, All}
use go_torrent.Bytes.{same_text, Bytes}
use go_torrent.Bencode.Value.{Value, Entries, put, none_left, entry}
use go_torrent.Bencode.Encode.{less_text, Field, key_less, marshal_value, marshal_fields}

less_text_asym : (a b : Bytes) → less_text a b ≡ true → less_text b a ≡ false
unfolding less_text
less_text_asym [] [] h = refl
less_text_asym [] (b ∷ bs) h = refl
less_text_asym (a ∷ as') [] h = ground arith
less_text_asym (a ∷ as') (b ∷ bs) h = ground (arith, less_text_asym as' bs)

less_text-same : (a b : Bytes) → less_text a b ≡ true → same_text a b ≡ false
unfolding less_text same_text
less_text-same [] [] h = ground arith
less_text-same [] (b ∷ bs) h = refl
less_text-same (a ∷ as') [] h = refl
less_text-same (a ∷ as') (b ∷ bs) h = ground (arith, less_text-same as' bs)

abbrev pub AllKeys : (Bytes → Type 0) → Entries → Type 0
AllKeys P none_left = Unit
AllKeys P (entry k v es) = P k × AllKeys P es

-- Each key is less than all that follow.
abbrev pub IsAscending : Entries → Type 0
IsAscending none_left = Unit
IsAscending (entry k v es) = AllKeys (λ k'. less_text k k' ≡ true) es × IsAscending es

unfoldable pub append : Entries → Entries → Entries
append none_left es = es
append (entry k v out) es = entry k v (append out es)

pub append_one :
    (out es : Entries) (k : Bytes) (v : Value)
    → append (append out (entry k v none_left)) es ≡ append out (entry k v es)
unfolding append
append_one none_left es k v = refl
append_one (entry k' w out) es k v = ap (entry k' w) (append_one out es k v)

pub append_none : (out : Entries) → append out none_left ≡ out
unfolding append
append_none none_left = refl
append_none (entry k v out) = ap (entry k v) (append_none out)

less-last :
    (k k' : Bytes) (v : Value) (out es : Entries)
    → AllKeys (λ x. less_text k' x ≡ true) (append out (entry k v es))
    → less_text k' k ≡ true
unfolding append
less-last k k' v none_left es h = h.0
less-last k k' v (entry x w out) es h = less-last k k' v out es h.1

-- A key after all the others is put at the end.
pub put_last :
    (k : Bytes) (v : Value) (out es : Entries)
    → IsAscending (append out (entry k v es))
    → put k v out ≡ append out (entry k v none_left)
unfolding put append
put_last k v none_left es h = refl
put_last k v (entry k' w out) es h =
    rw (less_text-same k' k (less-last k k' v out es h.0))
      (ap (entry k' w) (put_last k v out es h.1))

insert_first :
    (x : Field) (ys : List Field)
    → All (λ y. key_less y x ≡ false) ys
    → insert_by key_less x ys ≡ x ∷ ys
unfolding insert_by
insert_first x [] h = refl
insert_first x (y ∷ ys) h = rw h.0 refl

none_less :
    (k : Bytes) (x : Field) (es : Entries)
    → (x.key ≡ k)
    → AllKeys (λ k'. less_text k k' ≡ true) es
    → All (λ y. key_less y x ≡ false) (marshal_fields es)
unfolding marshal_value
none_less k x none_left e h = tt
none_less k x (entry k' v es) e h = (rw e (less_text_asym k k' h.0), none_less k x es e h.1)

-- Entries in the order of their keys are written in that order.
pub sort-ascending :
    (es : Entries) → IsAscending es → sort_by key_less (marshal_fields es) ≡ marshal_fields es
unfolding marshal_value sort_by
sort-ascending none_left h = refl
sort-ascending (entry k v es) h =
    let f : Field = record { key = k; written = marshal_value v } in
    rw (sort-ascending es h.1) (insert_first f (marshal_fields es) (none_less k f es refl h.0))
