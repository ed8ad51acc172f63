-- ===== src/Storage/Handles/Held.antt =====
-- Which files the cache of internal/storage/handles.go has closed.
use mathlib.Core.Option.{some-injective, none-ne-some}
use go_torrent.Base.{
  map_get, map_set, ℕ, zero, suc, ◌<◌, ◌≡◌, refl, sym, ap, subst, ◌∙◌, ◌⊎◌, inl, inr, Bool, true,
  false, not, ◌||◌, some, List, [], ◌∷◌, arith, leb, ◌==◌, ==_refl, Bool-cases, Option-cases,
  length, map_get-set, map_get-set_other,
}
use go_torrent.Storage.Handles.{
  CacheEntry, HandleCache, new_handle_cache, without, evict, last_idle, trim, open_file, acquire,
  let_go, release, close_entries, close_all,
}
use go_torrent.Storage.Handles.Kept.{
  closed_once, listed_in, IsKept, entry_other, listed_in-without, update-IsKept, evict-IsKept,
}

-- What the loop of `trim` finds stands on the list.
last_idle-listed :
    (entries : List (ℕ × CacheEntry)) (ids : List ℕ) (id : ℕ) (e : CacheEntry)
    → last_idle entries ids ≡ some (id, e)
    → (listed_in id ids ≡ true) × (map_get entries id ≡ some e)
unfolding last_idle
last_idle-listed entries [] id e h = absurd (none-ne-some _ h)
last_idle-listed entries (x ∷ ids) id e h = elim (Option-cases (last_idle entries ids)) [
  | inr (found, f) ↦
      let same = some-injective found (id, e) (rw f at h) in
      let r = last_idle-listed entries ids id e (f ∙ ap some same) in (ground (arith, r.0), r.1)
  | inl f ↦ elim (Option-cases (map_get entries x)) [
    | inl g ↦ absurd (none-ne-some _ (rw (f, g) at h))
    | inr (d, g) ↦ elim (Bool-cases (d.refs == 0)) [
      | inr busy ↦ absurd (none-ne-some _ (rw (f, g, busy) at h))
      | inl idle ↦
          let same = some-injective (x, d) (id, e) (rw (f, g, idle) at h) in
          let is : x ≡ id = ap (λ p. p.0) same in
          (ground (arith, is), ap (λ k. map_get entries k) (sym is) ∙ (g ∙ ap (λ p. some p.1) same))
    ]
  ]
]

-- An entry of the list is not evicted.
listed_live :
    (c : HandleCache) (id : ℕ) (e : CacheEntry)
    → IsKept c
    → listed_in id c.lru ≡ true
    → map_get c.entries id ≡ some e
    → e.evicted ≡ false
listed_live c id e h l at =
    let (d, there, live) = h.listed id l in
    ap (λ z. z.evicted) (some-injective e d (sym at ∙ there)) ∙ live

trim-IsKept : (fuel : ℕ) (c : HandleCache) → IsKept c → IsKept (trim fuel c)
unfolding trim
trim-IsKept zero c h = h
trim-IsKept (suc fuel) c h = elim (Bool-cases (leb (length c.lru) c.max_files)) [
  | inl e ↦ rw e h
  | inr e ↦ elim (Option-cases (last_idle c.entries c.lru)) [
    | inl f ↦ rw (e, f) h
    | inr (found, f) ↦
        let r = last_idle-listed c.entries c.lru found.0 found.1 f in
        rw (e, f)
          (trim-IsKept fuel (evict c found.0 found.1)
            (evict-IsKept c found.0 found.1 h r.1 (listed_live c found.0 found.1 h r.0 r.1)))
  ]
]

open_file-IsKept :
    (c : HandleCache) (path : ℕ) (write opens : Bool)
    → IsKept c
    → IsKept (open_file c path write opens).0
unfolding open_file
open_file-IsKept c path write false h = h
open_file-IsKept c path write true h =
    let e : CacheEntry = record {
      path = path;
      writable = write;
      refs = 1;
      evicted = false;
      closes = 0;
    } in
    trim-IsKept _ _ (record {
      counted = λ x y there. elim (Bool-cases (c.next == x)) [
        | inl same ↦
            let is : c.next ≡ x = ground arith in
            let got = some-injective e y (
              sym (map_get-set c.entries c.next e)
              ∙ (ap (λ k. map_get (map_set c.entries c.next e) k) is ∙ there)) in
            subst (λ z. z.closes ≡ closed_once z) got refl
        | inr other ↦ h.counted x y (sym (map_get-set_other c.entries x c.next e other) ∙ there)
      ];
      listed = λ x l. elim (Bool-cases (c.next == x)) [
        | inl same ↦
            let is : c.next ≡ x = ground arith in
            (
              e,
              ap (λ k. map_get (map_set c.entries c.next e) k) (sym is)
                  ∙ map_get-set c.entries c.next e,
              refl,
            )
        | inr other ↦
            let (d, there, live) = h.listed x (ground (arith, l)) in
            (d, map_get-set_other c.entries x c.next e other ∙ there, live)
      ];
      indexed = λ p x l. elim (Bool-cases (path == p)) [
        | inl same ↦
            let at_path : path ≡ p = ground arith in
            let is = some-injective c.next x (
              sym (map_get-set c.by_path path c.next)
              ∙ (ap (λ k. map_get (map_set c.by_path path c.next) k) at_path ∙ l)) in
            (
              e,
              ap (λ k. map_get (map_set c.entries c.next e) k) (sym is)
                  ∙ map_get-set c.entries c.next e,
              refl,
              at_path,
            )
        | inr other ↦
            let (d, there, live, where_is) =
              h.indexed p x (sym (map_get-set_other c.by_path p path c.next other) ∙ l) in
            let differs = entry_other c.entries x c.next d there (h.fresh c.next (omega arith)) in
            (
              d,
              map_get-set_other c.entries x c.next e (ground (arith, differs)) ∙ there,
              live,
              where_is,
            )
      ];
      fresh =
          λ x l. map_get-set_other c.entries x c.next e (ground arith) ∙ h.fresh x (omega arith);
    })

acquire-IsKept :
    (c : HandleCache) (path : ℕ) (write opens : Bool)
    → IsKept c
    → IsKept (acquire c path write opens).0
unfolding acquire
acquire-IsKept c path write opens h = elim (Option-cases (map_get c.by_path path)) [
  | inl f ↦ rw (acquire, f) (open_file-IsKept c path write opens h)
  | inr (id, f) ↦
      let (e, at, live, where_is) = h.indexed path id f in
      elim (Bool-cases (not write || e.writable)) [
        | inr again ↦
            rw (acquire, f, at, again)
              (open_file-IsKept (evict c id e) path write opens (evict-IsKept c id e h at live))
        | inl shares ↦
            let before = h.counted id e at in
            let none_yet : e.closes ≡ closed_once (record e { refs = suc e.refs }) =
              ground (arith, before) in
            let kept =
              update-IsKept c id e (record e { refs = suc e.refs }) (id ∷ without id c.lru) h at
                refl refl none_yet
                (λ x l. elim (Bool-cases (id == x)) [
                  | inl same ↦ inl (live, same)
                  | inr other ↦ inr ((listed_in-without id x c.lru (ground (arith, l))).1)
                ]) in
            rw (acquire, f, at, shares) kept
      ]
]

let_go-path : (e : CacheEntry) → (let_go e).path ≡ e.path
let_go-path e = ground arith

let_go-evicted : (e : CacheEntry) → (let_go e).evicted ≡ e.evicted
let_go-evicted e = ground arith

let_go-closes :
    (e : CacheEntry)
    → 0 < e.refs
    → e.closes ≡ closed_once e
    → (let_go e).closes ≡ closed_once (let_go e)
let_go-closes e held before = ground arith

release-IsKept :
    (c : HandleCache) (id : ℕ) (e : CacheEntry)
    → IsKept c
    → map_get c.entries id ≡ some e
    → 0 < e.refs
    → IsKept (release c id)
unfolding release
release-IsKept c id e h at held =
    rw (release, at)
      (update-IsKept c id e (let_go e) c.lru h at (let_go-path e) (let_go-evicted e)
        (let_go-closes e held (h.counted id e at)) (λ x l. inr l))

front-cases : (xs : List ℕ) → (xs ≡ []) ⊎ ((x : ℕ) × (rest : List ℕ) × (xs ≡ x ∷ rest))
front-cases [] = inl refl
front-cases (x ∷ rest) = inr (x, rest, refl)

close_entries-IsKept : (fuel : ℕ) (c : HandleCache) → IsKept c → IsKept (close_entries fuel c)
unfolding close_entries
close_entries-IsKept zero c h = h
close_entries-IsKept (suc fuel) c h = elim (front-cases c.lru) [
  | inl e ↦ simp (close_entries, e) h
  | inr (id, ids, e) ↦
      let (d, at, live) = h.listed id (ground (arith, e, ==_refl id)) in
      simp (close_entries, e, at)
        (close_entries-IsKept fuel (evict c id d) (evict-IsKept c id d h at live))
]

-- A call on the cache: an entry is released only while somebody holds it.
pub data Step : HandleCache → HandleCache → Type 0 where
  acquires :
      {c : HandleCache} (path : ℕ) (write opens : Bool) → Step c (acquire c path write opens).0
  releases :
      {c : HandleCache} (id : ℕ) (e : CacheEntry)
      → map_get c.entries id ≡ some e
      → 0 < e.refs
      → Step c (release c id)
  closes_all : {c : HandleCache} → Step c (close_all c)

pub data Reaches (c : HandleCache) : HandleCache → Type 0 where
  here : Reaches c c
  onwards : {d e : HandleCache} → Reaches c d → Step d e → Reaches c e

Step-IsKept : (c d : HandleCache) → Step c d → IsKept c → IsKept d
unfolding close_all
Step-IsKept c _ (acquires path write opens) h = acquire-IsKept c path write opens h
Step-IsKept c _ (releases id e at held) h = release-IsKept c id e h at held
Step-IsKept c _ closes_all h = close_entries-IsKept (length c.lru) c h

new-IsKept : (n : ℕ) → IsKept (new_handle_cache n)
unfolding new_handle_cache map_get
new-IsKept n = record {
  counted = λ id e h. absurd (none-ne-some _ h);
  listed = λ id h. absurd (ground arith);
  indexed = λ p id h. absurd (none-ne-some _ h);
  fresh = λ id h. refl;
}

Reaches-IsKept : (n : ℕ) (c : HandleCache) → Reaches (new_handle_cache n) c → IsKept c
Reaches-IsKept n _ here = new-IsKept n
Reaches-IsKept n c (onwards {d = d} before step) = Step-IsKept d c step (Reaches-IsKept n d before)

-- However a new cache came to its state, by files that are acquired, whether or not they can be
-- opened, by entries released while somebody holds them, and by all being closed: the file of an
-- entry has been closed once if the entry is evicted and nobody holds it, and never otherwise.
pub closes-Reaches :
    (n : ℕ) (c : HandleCache) (id : ℕ) (e : CacheEntry)
    → Reaches (new_handle_cache n) c
    → map_get c.entries id ≡ some e
    → e.closes ≡ closed_once e
closes-Reaches n c id e r at = (Reaches-IsKept n c r).counted id e at
