-- ===== src/Net/Arp/Cache.antt =====
-- src/net/arp.cpp: the cache as a map from addresses to MACs.
use layla_os.Base.{
  List, [], ◌∷◌, Option, none, some, if◌then◌else◌, ◌≡◌, refl, ap, ◌∙◌, subst, Bool-cases,
  Option-cases, Bool, inl, inr, true, false, ◌&&◌, ◌||◌, not, arith,
}
use layla_os.Net.Wire.{Ipv4Address, ip_eq, MacAddress}
use layla_os.Net.Arp.{ArpCacheEntry, cache_update, cache_insert, cache_set, cache_get}

-- Whether an entry is free.
abbrev pub has_room : List ArpCacheEntry → Bool
has_room [] = false
has_room (e ∷ es) = not e.valid || has_room es

abbrev pub is_known : Ipv4Address → List ArpCacheEntry → Bool
is_known ip es = elim (cache_get ip es) [ none ↦ false | some m ↦ true ]

ip_eq→≡ : (x y : Ipv4Address) → ip_eq x y ≡ true → x ≡ y
ip_eq→≡ x y h = ground arith

pub ip_eq_refl : (x : Ipv4Address) → ip_eq x x ≡ true
ip_eq_refl x = ground arith

-- The cache after one entry was written: `after` answers `m` for `ip`, and as before for the rest.
abbrev IsWritten : Ipv4Address → MacAddress → List ArpCacheEntry → List ArpCacheEntry → Type 0
IsWritten ip m before after =
    (ip' : Ipv4Address)
    → cache_get ip' after ≡ (if ip_eq ip ip' then some m else cache_get ip' before)

abbrev Updated :
    Ipv4Address → MacAddress → List ArpCacheEntry → Option (List ArpCacheEntry) → Type 0
Updated ip m es none = cache_get ip es ≡ none
Updated ip m es (some es') = (is_known ip es ≡ true) × IsWritten ip m es es'

abbrev Inserted :
    Ipv4Address → MacAddress → List ArpCacheEntry → Option (List ArpCacheEntry) → Type 0
Inserted ip m es none = has_room es ≡ false
Inserted ip m es (some es') = (has_room es ≡ true) × IsWritten ip m es es'

-- Entries in front keep their answers.
IsWritten-cons :
    (ip : Ipv4Address) (m : MacAddress) (e : ArpCacheEntry) (es es' : List ArpCacheEntry)
    → (e.valid && ip_eq e.ip ip) ≡ false
    → IsWritten ip m es es'
    → IsWritten ip m (e ∷ es) (e ∷ es')
unfolding cache_get
IsWritten-cons ip m e es es' t w ip' = elim (Bool-cases (e.valid && ip_eq e.ip ip')) [
  | inl u ↦ elim (Bool-cases (ip_eq ip ip')) [
    | inl v ↦
        let same = ip_eq→≡ ip ip' v in
        let no : (e.valid && ip_eq e.ip ip') ≡ false =
          subst (λ k. (e.valid && ip_eq e.ip k) ≡ false) same t in
        absurd (ground arith)
    | inr v ↦ rw (u, v) refl
  ]
  | inr u ↦ rw u (w ip')
]

known_entry :
    (v : Bool) (x ip ip' : Ipv4Address)
    → (v && ip_eq x ip) ≡ true
    → (v && ip_eq x ip') ≡ ip_eq ip ip'
known_entry true x ip ip' t = ap (λ (k : Ipv4Address). ip_eq k ip') (ip_eq→≡ x ip t)
known_entry false x ip ip' t = absurd (ground arith)

cache_update_lem :
    (ip : Ipv4Address) (m : MacAddress) (es : List ArpCacheEntry)
    → Updated ip m es (cache_update ip m es)
unfolding cache_update cache_get
cache_update_lem ip m [] = refl
cache_update_lem ip m (e ∷ es) = elim (Bool-cases (e.valid && ip_eq e.ip ip)) [
  | inl t ↦
      rw t (rw (is_known, t) refl, λ ip'. rw (known_entry e.valid e.ip ip ip' t) (ground arith))
  | inr t ↦
      let ih = λ (o : Option (List ArpCacheEntry)) (q : cache_update ip m es ≡ o).
        subst (λ k. Updated ip m es k) q (cache_update_lem ip m es) in
      elim (Option-cases (cache_update ip m es)) [
        | inl q ↦ rw (t, q) (rw (cache_get, t) (ih none q))
        | inr q ↦
            let w = ih (some q.0) q.1 in
            rw (t, q.1) (rw (is_known, t) w.0, IsWritten-cons ip m e es q.0 t w.1)
      ]
]

cache_insert_lem :
    (ip : Ipv4Address) (m : MacAddress) (es : List ArpCacheEntry)
    → cache_get ip es ≡ none
    → Inserted ip m es (cache_insert ip m es)
unfolding cache_insert cache_get
cache_insert_lem ip m [] h = refl
cache_insert_lem ip m (e ∷ es) h = elim (Bool-cases (e.valid && ip_eq e.ip ip)) [
  | inl t ↦ absurd (ground arith)
  | inr t ↦
      let tail : cache_get ip es ≡ none = ground arith in
      let ih = λ (o : Option (List ArpCacheEntry)) (q : cache_insert ip m es ≡ o).
        subst (λ k. Inserted ip m es k) q (cache_insert_lem ip m es tail) in
      elim (Bool-cases e.valid) [
        | inr u ↦ rw u (refl, λ ip'. refl)
        | inl u ↦ elim (Option-cases (cache_insert ip m es)) [
          | inl q ↦ rw (u, q) (ih none q)
          | inr q ↦
              let w = ih (some q.0) q.1 in
              simp (u, q.1)
                (
                  w.0,
                  IsWritten-cons ip m (record { ip = e.ip; mac = e.mac; valid = true }) es q.0
                      (subst (λ k. (k && ip_eq e.ip ip) ≡ false) u t) w.1,
                )
        ]
      ]
]

-- The cache is a map: after `CacheSet` the address has the new MAC if it was in the cache or an entry
-- was free, every other address has what it had, and with the address unknown and no entry free
-- nothing changes.
pub cache_get-set :
    (ip ip' : Ipv4Address) (m : MacAddress) (es : List ArpCacheEntry)
    → cache_get ip' (cache_set ip m es)
      ≡ (if ip_eq ip ip' && (is_known ip es || has_room es) then some m else cache_get ip' es)
unfolding cache_set
cache_get-set ip ip' m es =
    let u = λ (o : Option (List ArpCacheEntry)) (q : cache_update ip m es ≡ o).
      subst (λ k. Updated ip m es k) q (cache_update_lem ip m es) in
    elim (Option-cases (cache_update ip m es)) [
      | inr q ↦
          let w = u (some q.0) q.1 in
          let known = w.0 in rw (cache_set, q.1) (w.1 ip' ∙ ground arith)
      | inl q ↦
          let free = u none q in
          let i = λ (o : Option (List ArpCacheEntry)) (r : cache_insert ip m es ≡ o).
            subst (λ k. Inserted ip m es k) r (cache_insert_lem ip m es free) in
          elim (Option-cases (cache_insert ip m es)) [
            | inl r ↦ let full = i none r in rw (cache_set, q, r) (ground arith)
            | inr r ↦
                let w = i (some r.0) r.1 in
                let room = w.0 in rw (cache_set, q, r.1) (w.1 ip' ∙ ground arith)
          ]
    ]
