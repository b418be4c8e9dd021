-- ===== src/Database/Server.antt =====
-- What the database server does with indexes, and which of them agree with the wanted ones.
use fcp_sfd_object_processor.Common.{
  ℕ, String, ◌≡◌, ◌≢◌, refl, ap, ◌⊎◌, inl, inr, Bool, true, false, not, List, [], ◌++◌, map, filter,
  any, All, In, arith, str_eq, eq_iff, if◌then◌else◌, Bool-cases, ok, err, coded, filter-In,
  any-true, In-append, In-append_right, All-In,
}
use fcp_sfd_object_processor.Json.{
  Json, undefined, null, bool, str, oid, arr, obj, num, nat, neg, frac, inf, nan, same,
}
use fcp_sfd_object_processor.Database.{
  Coll, Index, Driver, outbox_indexes, ◌then◌, sent_ttl_index, spec_matches,
}

abbrev pub has_name : String → Index → Bool
has_name n i = str_eq i.name n

abbrev pub with_retention : String → ℕ → Index → Index
with_retention n ttl i =
    if has_name n i then record i { expire_after_seconds = num (nat ttl) } else i

-- An index is none of the wanted ones, by its name and by its key, or it is one of them.
abbrev pub Agrees : List Index → Index → Type 0
Agrees specs i = All (λ s. (i.name ≡ s.name) ⊎ (i.key ≡ s.key) → i ≡ s) specs

abbrev pub missing : List Index → List Index → List Index
missing is specs = filter (λ s. not (any (has_name s.name) is)) specs

-- What the server does, where it is reached: indexes that agree with the existing ones are made,
-- an index is dropped, its retention is changed.
pub record Serves {W : Type 0} (driver : Driver W) (stored : Coll → W → List Index) : Type 0 where
  pub create_lem :
      (c : Coll) (specs : List Index) (w : W)
      → All (Agrees specs) (stored c w)
      → ((driver.create_indexes c specs w).0 ≡ ok tt)
        × (stored c (driver.create_indexes c specs w).1 ≡ stored c w ++ missing (stored c w) specs)
  pub create_other :
      (c d : Coll) (specs : List Index) (w : W)
      → d ≢ c
      → stored d (driver.create_indexes c specs w).1 ≡ stored d w
  pub indexes_lem :
      (c : Coll) (w : W)
      → (stored c (driver.indexes c w).1 ≡ stored c w)
        × (((driver.indexes c w).0 ≡ ok (stored c w))
            ⊎ ((m : String) × ((driver.indexes c w).0 ≡ err (coded 26 m)) × (stored c w ≡ [])))
  pub drop_lem :
      (c : Coll) (n : String) (w : W)
      → any (has_name n) (stored c w) ≡ true
      → ((driver.drop_index c n w).0 ≡ ok tt)
        × (stored c (driver.drop_index c n w).1 ≡ filter (λ i. not (has_name n i)) (stored c w))
  pub mod_lem :
      (c : Coll) (n : String) (ttl : ℕ) (w : W)
      → any (has_name n) (stored c w) ≡ true
      → ((driver.coll_mod c n ttl w).0 ≡ ok tt)
        × (stored c (driver.coll_mod c n ttl w).1 ≡ map (with_retention n ttl) (stored c w))

pub same-num : (n : ℕ) (v : Json) → same v (num (nat n)) ≡ true → v ≡ num (nat n)
same-num n (num (nat m)) h = ap (λ k. num (nat k)) (ground arith)
same-num n (num (neg m)) h = absurd (cc h)
same-num n (num (frac true t)) h = absurd (cc h)
same-num n (num (frac false t)) h = absurd (cc h)
same-num n (num (inf true)) h = absurd (cc h)
same-num n (num (inf false)) h = absurd (cc h)
same-num n (num nan) h = absurd (cc h)
same-num n undefined h = absurd (cc h)
same-num n null h = absurd (cc h)
same-num n (bool true) h = absurd (cc h)
same-num n (bool false) h = absurd (cc h)
same-num n (str s) h = absurd (cc h)
same-num n (oid o) h = absurd (cc h)
same-num n (arr is) h = absurd (cc h)
same-num n (obj fs) h = absurd (cc h)

pub sent_ttl_index-Agrees : (ttl : ℕ) → Agrees (outbox_indexes ttl) (sent_ttl_index (num (nat ttl)))
sent_ttl_index-Agrees ttl = (
  (λ h. elim h [ inl e ↦ absurd (cc e) | inr e ↦ absurd (cc e) ]),
  (
    (λ h. elim h [ inl e ↦ absurd (cc e) | inr e ↦ absurd (cc e) ]),
    (
      (λ h. elim h [ inl e ↦ absurd (cc e) | inr e ↦ absurd (cc e) ]),
      ((λ h. elim h [ inl e ↦ absurd (cc e) | inr e ↦ absurd (cc e) ]), ((λ h. refl), tt)),
    ),
  ),
)

pub Agrees-eq : (specs : List Index) (i j : Index) → i ≡ j → Agrees specs j → Agrees specs i
Agrees-eq specs i j e a = rw e a

-- after the indexes are made, all that were asked for are there
pub In-missing :
    (is specs : List Index) (s : Index)
    → All (Agrees specs) is
    → In s specs
    → In s (is ++ missing is specs)
In-missing is specs s h m = elim (Bool-cases (any (has_name s.name) is)) [
  | inl t ↦
      let (i, n, q) = any-true (has_name s.name) is t in
      let e : i ≡ s =
        All-In _ specs s (All-In (Agrees specs) is i h n) m (inl ((eq_iff i.name s.name).0 q)) in
      rw (← e) (In-append i is _ n)
  | inr t ↦
      In-append_right s is _ (filter-In (λ s. not (any (has_name s.name) is)) s specs (rw t refl) m)
]

-- one index of a name
abbrev pub AreUnique : List Index → Type 0
AreUnique is = (i j : Index) → In i is → In j is → i.name ≡ j.name → i ≡ j

-- one whose spec matches is the wanted index but for its retention
abbrev pub IsExact : Index → Type 0
IsExact i = spec_matches i ≡ true → i ≡ sent_ttl_index i.expire_after_seconds
