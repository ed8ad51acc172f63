-- ===== src/Storage/Handles/Kept.antt =====
-- What holds of the entries in the cache of internal/storage/handles.go, and how a change of one keeps it.
use mathlib.Core.Option.{some-injective, none-ne-some}
use go_torrent.Base.{
  map_get, map_set, ℕ, ◌≤◌, ◌≡◌, refl, sym, ap, subst, ◌∙◌, ◌⊎◌, inl, inr, Bool, true, false, ◌&&◌,
  ◌||◌, none, some, List, [], ◌∷◌, arith, ◌==◌, if◌then◌else◌, Bool-cases, map_get-set,
  map_get-set_other, map_get-delete, map_get-delete_other,
}
use go_torrent.Storage.Handles.{CacheEntry, HandleCache, without, close_if_idle, evict}

abbrev pub closed_once : CacheEntry → ℕ
closed_once e = if e.evicted && e.refs == 0 then 1 else 0

abbrev pub listed_in : ℕ → List ℕ → Bool
listed_in id [] = false
listed_in id (x ∷ xs) = x == id || listed_in id xs

abbrev pub Live : HandleCache → ℕ → Type 0
Live c id = (e : CacheEntry) × (map_get c.entries id ≡ some e) × (e.evicted ≡ false)

abbrev pub LiveAt : HandleCache → ℕ → ℕ → Type 0
LiveAt c id p =
    (e : CacheEntry) × (map_get c.entries id ≡ some e) × (e.evicted ≡ false) × (e.path ≡ p)

pub record IsKept (c : HandleCache) : Type 0 where
  pub counted : (id : ℕ) (e : CacheEntry) → map_get c.entries id ≡ some e → e.closes ≡ closed_once e
  pub listed : (id : ℕ) → listed_in id c.lru ≡ true → Live c id
  pub indexed : (p id : ℕ) → map_get c.by_path p ≡ some id → LiveAt c id p
  pub fresh : (id : ℕ) → c.next ≤ id → map_get c.entries id ≡ none

-- An entry that is there is another than one that is not.
pub entry_other :
    (m : List (ℕ × CacheEntry)) (id other : ℕ) (e : CacheEntry)
    → map_get m id ≡ some e
    → map_get m other ≡ none
    → (id == other) ≡ false
entry_other m id other e h k = elim (Bool-cases (id == other)) [
  | inr differs ↦ differs
  | inl same ↦ let is : id ≡ other = ground arith in absurd (none-ne-some _ (sym k ∙ (rw is at h)))
]

pub listed_in-without :
    (id x : ℕ) (xs : List ℕ)
    → listed_in x (without id xs) ≡ true
    → ((id == x) ≡ false) × (listed_in x xs ≡ true)
unfolding without
listed_in-without id x [] h = absurd (ground arith)
listed_in-without id x (y ∷ ys) h = elim (Bool-cases (y == id)) [
  | inl e ↦ let r = listed_in-without id x ys (rw e at h) in (r.0, ground (arith, r.1))
  | inr e ↦ elim (Bool-cases (y == x)) [
    | inl f ↦ (ground arith, ground arith)
    | inr f ↦
        let l : (y == x || listed_in x (without id ys)) ≡ true = rw e at h in
        let r = listed_in-without id x ys (ground (arith, l)) in (r.0, ground (arith, r.1))
  ]
]

-- A change of an entry that stays on its list or off it.
pub update-IsKept :
    (c : HandleCache) (id : ℕ) (e e' : CacheEntry) (lru' : List ℕ)
    → IsKept c
    → map_get c.entries id ≡ some e
    → e'.path ≡ e.path
    → e'.evicted ≡ e.evicted
    → e'.closes ≡ closed_once e'
    → ((x : ℕ)
        → listed_in x lru' ≡ true
        → (e.evicted ≡ false) × ((id == x) ≡ true) ⊎ (listed_in x c.lru ≡ true))
    → IsKept (record c { entries = map_set c.entries id e'; lru = lru' })
update-IsKept c id e e' lru' h at path evicted closes within = record {
  counted = λ x y there. elim (Bool-cases (id == x)) [
    | inl same ↦
        let is : id ≡ x = ground arith in
        let got = some-injective e' y (
          sym (map_get-set c.entries id e')
          ∙ (ap (λ k. map_get (map_set c.entries id e') k) is ∙ there)) in
        subst (λ z. z.closes ≡ closed_once z) got closes
    | inr other ↦ h.counted x y (sym (map_get-set_other c.entries x id e' other) ∙ there)
  ];
  listed = λ x l. elim (within x l) [
    | inl (live, same) ↦
        let is : id ≡ x = ground arith in
        (
          e',
          ap (λ k. map_get (map_set c.entries id e') k) (sym is) ∙ map_get-set c.entries id e',
          evicted ∙ live,
        )
    | inr was ↦
        let (d, there, live) = h.listed x was in
        elim (Bool-cases (id == x)) [
          | inl same ↦
              let is : id ≡ x = ground arith in
              let same_entry =
                some-injective e d (sym at ∙ (ap (λ k. map_get c.entries k) is ∙ there)) in
              (
                e',
                ap (λ k. map_get (map_set c.entries id e') k) (sym is)
                    ∙ map_get-set c.entries id e',
                evicted ∙ (ap (λ z. z.evicted) same_entry ∙ live),
              )
          | inr other ↦ (d, map_get-set_other c.entries x id e' other ∙ there, live)
        ]
  ];
  indexed = λ p x l. elim (Bool-cases (id == x)) [
    | inl same ↦
        let is : id ≡ x = ground arith in
        let (d, there, live, where_is) = h.indexed p x l in
        let same_entry = some-injective e d (sym at ∙ (ap (λ k. map_get c.entries k) is ∙ there)) in
        (
          e',
          rw (← is) (map_get-set c.entries id e'),
          evicted ∙ (ap (λ z. z.evicted) same_entry ∙ live),
          path ∙ (ap (λ z. z.path) same_entry ∙ where_is),
        )
    | inr other ↦
        let (d, there, live, where_is) = h.indexed p x l in
        (d, map_get-set_other c.entries x id e' other ∙ there, live, where_is)
  ];
  fresh = λ x l.
      map_get-set_other c.entries x id e' (entry_other c.entries id x e at (h.fresh x l))
      ∙ h.fresh x l;
}

pub evict-IsKept :
    (c : HandleCache) (id : ℕ) (e : CacheEntry)
    → IsKept c
    → map_get c.entries id ≡ some e
    → e.evicted ≡ false
    → IsKept (evict c id e)
unfolding evict
evict-IsKept c id e h at live =
    let gone = close_if_idle (record e { evicted = true }) in
    let before = h.counted id e at in
    let none_yet : e.closes ≡ 0 = ground (arith, before) in
    let once : gone.closes ≡ closed_once gone = elim (Bool-cases (e.refs == 0)) [
      | inl idle ↦ rw (close_if_idle, idle) (rw (none_yet, idle) refl)
      | inr held ↦ rw (close_if_idle, held) (rw (none_yet, held) refl)
    ] in
    record {
      counted = λ x y there. elim (Bool-cases (id == x)) [
        | inl same ↦
            let is : id ≡ x = ground arith in
            let got = some-injective gone y (
              sym (map_get-set c.entries id gone)
              ∙ (ap (λ k. map_get (map_set c.entries id gone) k) is ∙ there)) in
            subst (λ z. z.closes ≡ closed_once z) got once
        | inr other ↦ h.counted x y (sym (map_get-set_other c.entries x id gone other) ∙ there)
      ];
      listed = λ x l.
          let r = listed_in-without id x c.lru l in
          let (d, there, alive) = h.listed x r.1 in
          (d, map_get-set_other c.entries x id gone r.0 ∙ there, alive);
      indexed = λ p x l. elim (Bool-cases (e.path == p)) [
        | inl same ↦
            let is : e.path ≡ p = ground arith in
            absurd (none-ne-some _ (sym (map_get-delete c.by_path e.path) ∙ (rw (← is) at l)))
        | inr other ↦
            let (d, there, alive, where_is) =
              h.indexed p x (sym (map_get-delete_other c.by_path p e.path other) ∙ l) in
            let differs : (id == x) ≡ false = elim (Bool-cases (id == x)) [
              | inr f ↦ f
              | inl f ↦
                  let is : id ≡ x = ground arith in
                  let same_entry =
                    some-injective e d (sym at ∙ (ap (λ k. map_get c.entries k) is ∙ there)) in
                  let path_is : e.path ≡ p = ap (λ z. z.path) same_entry ∙ where_is in
                  absurd (ground (arith, path_is))
            ] in
            (d, map_get-set_other c.entries x id gone differs ∙ there, alive, where_is)
      ];
      fresh = λ x l.
          map_get-set_other c.entries x id gone (entry_other c.entries id x e at (h.fresh x l))
          ∙ h.fresh x l;
    }
