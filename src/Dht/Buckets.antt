-- ===== src/Dht/Buckets.antt =====
-- The invariant of the routing table of internal/dht/table.go.
use go_torrent.Base.{
  ℕ, suc, ◌≤◌, ◌≡◌, refl, sym, ap, ap₂, ◌∙◌, inl, inr, true, false, false≢true, Option, none, some,
  [], ◌∷◌, ◌++◌, arith, ltb, Bool-cases, Option-cases, length, All, length-append, All-append,
}
use go_torrent.Dht.Id.{NodeId, same_id}
use go_torrent.Dht.Table.{
  bucket_size, Contact, Bucket, is_bad, find_contact, without, replace_bad, insert_contact,
  fail_contact,
}

same_id_sound : (a b : NodeId) → same_id a b ≡ true → a ≡ b
unfolding same_id
same_id_sound [] [] h = refl
same_id_sound [] (b ∷ bs) h = absurd (false≢true h)
same_id_sound (a ∷ as') [] h = absurd (false≢true h)
same_id_sound (a ∷ as') (b ∷ bs) h =
    let first : a ≡ b = ground arith in
    let rest : same_id as' bs ≡ true = ground arith in
    ap₂ (λ x xs. x ∷ xs) first (same_id_sound as' bs rest)

same_id_refl : (a : NodeId) → same_id a a ≡ true
unfolding same_id
same_id_refl [] = refl
same_id_refl (a ∷ as') = ground (arith, same_id_refl as')

same_id_comm : (a b : NodeId) → same_id a b ≡ same_id b a
same_id_comm a b = elim (Bool-cases (same_id a b)) [
  | inl e ↦ let is = same_id_sound a b e in rw is (refl)
  | inr e ↦ elim (Bool-cases (same_id b a)) [
    | inl f ↦ let is = same_id_sound b a f in rw is refl
    | inr f ↦ e ∙ sym f
  ]
]

-- No contact of the list has this identifier.
abbrev pub Lacks : NodeId → Bucket → Type 0
Lacks id b = All (λ c. same_id c.id id ≡ false) b

abbrev pub Distinct : Bucket → Type 0
Distinct [] = Unit
Distinct (c ∷ cs) = Lacks c.id cs × Distinct cs

Lacks-without : (x id : NodeId) (b : Bucket) → Lacks x b → Lacks x (without b id)
unfolding without
Lacks-without x id [] h = tt
Lacks-without x id (c ∷ cs) h = elim (Bool-cases (same_id c.id id)) [
  | inl e ↦ rw e h.1
  | inr e ↦ rw e (h.0, Lacks-without x id cs h.1)
]

Lacks-append : (x : NodeId) (b b' : Bucket) → Lacks x b → Lacks x b' → Lacks x (b ++ b')
Lacks-append x b b' h h' = All-append (λ c. same_id c.id x ≡ false) b b' h h'

Distinct-append_one :
    (b : Bucket) (c : Contact) → Distinct b → Lacks c.id b → Distinct (b ++ (c ∷ []))
Distinct-append_one [] c d h = (tt, tt)
Distinct-append_one (x ∷ xs) c d h = (
  Lacks-append x.id xs (c ∷ []) d.0 (same_id_comm c.id x.id ∙ h.0, tt),
  Distinct-append_one xs c d.1 h.1,
)

abbrev Missing : Bucket → NodeId → Option Contact → Type 0
Missing b id none = Lacks id b
Missing b id (some c) = (c.id ≡ id) × (suc (length (without b id)) ≡ length b)

find_contact_lem : (b : Bucket) (id : NodeId) → Missing b id (find_contact b id)
unfolding find_contact without
find_contact_lem [] id = tt
find_contact_lem (c ∷ cs) id =
    let ih = find_contact_lem cs id in
    elim (Bool-cases (same_id c.id id)) [
      | inl e ↦ rw e (same_id_sound c.id id e, ground (arith, e))
      | inr e ↦ elim (Option-cases (find_contact cs id)) [
        | inl f ↦ rw (e, f) (e, rw f at ih)
        | inr (x, f) ↦ let found = rw f at ih in rw (e, f) (found.0, ground (arith, e, found.1))
      ]
    ]

module _ (P : NodeId → Type 0) where
  abbrev Each : Bucket → Type 0
  Each b = All (λ c. P c.id) b

  pub record Fits (b : Bucket) : Type 0 where
    pub each : Each b
    pub distinct : Distinct b
    pub small : length b ≤ bucket_size

  without_lem :
      (b : Bucket) (id : NodeId)
      → Each b
      → Distinct b
      → Each (without b id) × Distinct (without b id) × Lacks id (without b id)
  unfolding without
  without_lem [] id h d = (tt, tt, tt)
  without_lem (c ∷ cs) id h d = elim (Bool-cases (same_id c.id id)) [
    | inl e ↦ let is = same_id_sound c.id id e in rw e (h.1, d.1, rw is at d.0)
    | inr e ↦
        let rest = without_lem cs id h.1 d.1 in
        rw e ((h.0, rest.0), (Lacks-without c.id id cs d.0, rest.1), (e, rest.2))
  ]

  replace_bad_lem :
      (b : Bucket) (new : Contact)
      → Each b
      → Distinct b
      → Lacks new.id b
      → P new.id
      → Each (replace_bad b new)
        × Distinct (replace_bad b new)
        × (length (replace_bad b new) ≡ length b)
        × ((x : NodeId) → Lacks x b → same_id new.id x ≡ false → Lacks x (replace_bad b new))
  unfolding replace_bad
  replace_bad_lem [] new h d l p = (tt, tt, refl, λ x hx hn. tt)
  replace_bad_lem (c ∷ cs) new h d l p =
      let (each, distinct, len, lacks) = replace_bad_lem cs new h.1 d.1 l.1 p in
      elim (Bool-cases (is_bad c)) [
        | inl e ↦ rw e ((p, h.1), (l.1, d.1), refl, λ x hx hn. (hn, hx.1))
        | inr e ↦ rw e (
          (h.0, each),
          (lacks c.id d.0 (same_id_comm new.id c.id ∙ l.0), distinct),
          ap suc len,
          λ x hx hn. (hx.0, lacks x hx.1 hn),
        )
      ]

  fail_contact_lem :
      (b : Bucket) (id : NodeId)
      → Each b
      → Distinct b
      → Each (fail_contact b id)
        × Distinct (fail_contact b id)
        × (length (fail_contact b id) ≡ length b)
        × ((x : NodeId) → Lacks x b → Lacks x (fail_contact b id))
  unfolding fail_contact
  fail_contact_lem [] id h d = (tt, tt, refl, λ x hx. tt)
  fail_contact_lem (c ∷ cs) id h d =
      let (each, distinct, len, lacks) = fail_contact_lem cs id h.1 d.1 in
      elim (Bool-cases (same_id c.id id)) [
        | inl e ↦ rw e (h, d, refl, λ x hx. hx)
        | inr e ↦
            rw e ((h.0, each), (lacks c.id d.0, distinct), ap suc len, λ x hx. (hx.0, lacks x hx.1))
      ]

  pub insert_contact-Fits :
      (now : ℕ) (b : Bucket) (id : NodeId) (addr : ℕ)
      → P id
      → Fits b
      → Fits (insert_contact now b id addr)
  unfolding insert_contact
  insert_contact-Fits now b id addr p f =
      let found = find_contact_lem b id in
      elim (Option-cases (find_contact b id)) [
        | inr (c, e) ↦
            let (is, len) = rw e at found in
            let (each, distinct, lacks) = without_lem b id f.each f.distinct in
            rw (e, insert_contact)
              (record {
                each = All-append (λ c. P c.id) (without b id) _ each (rw is (p, tt));
                distinct = Distinct-append_one (without b id) _ distinct (rw is lacks);
                small = rw (length-append (without b id) _) (omega (arith, f.small, len));
              })
        | inl e ↦
            let lacks = rw e at found in
            rw (e, insert_contact)
              (elim (Bool-cases (ltb (length b) bucket_size)) [
                | inl room ↦ rw room (record {
                  each = All-append (λ c. P c.id) b _ f.each (p, tt);
                  distinct = Distinct-append_one b _ f.distinct lacks;
                  small = rw (length-append b _) (ground arith);
                })
                | inr full ↦
                    let (each, distinct, len, _) = replace_bad_lem b _ f.each f.distinct lacks p in
                    rw full (record {
                      each = each;
                      distinct = distinct;
                      small = omega (arith, len, f.small);
                    })
              ])
      ]

  pub fail_contact-Fits : (b : Bucket) (id : NodeId) → Fits b → Fits (fail_contact b id)
  fail_contact-Fits b id f =
      let (each, distinct, len, _) = fail_contact_lem b id f.each f.distinct in
      record { each = each; distinct = distinct; small = omega (arith, len, f.small) }
