-- ===== src/Python/Ports/Queries.antt =====
-- Which mappings a PortMapping (native/P2P.c) asks libplum for.
use ffl_p2p.Prelude.{
  ℕ, ◌≡◌, refl, subst, Bool, true, false, not, ◌||◌, ◌==◌, Option, none, some, List, [], ◌∷◌, ltb,
  arith, if◌then◌else◌, if_cases, if_true, ◌≢◌, Result, ok, err,
}
use text.Mathlib.Text as Text
use ffl_p2p.Python.Credentials.{PyError}
use ffl_p2p.Python.Ports.{
  Plum, set_port_log_level, initialize_plum, Mapping, PlumReply, mapped, create_on, create_mapping,
  PortMapping, new_port_mapping, PortArguments, with_mapping, initialize_port_mapping,
  close_port_mapping, removed, destroy_mapping, queried, query_port_mapping,
}

abbrev pub elem : ℕ → List ℕ → Bool
elem k [] = false
elem k (x ∷ xs) = let rest = elem k xs in if x == k then true else rest

abbrev pub NotOf : ℕ → Option Mapping → Type 0
NotOf id none = Unit {0}
NotOf id (some m) = (m.id == id) ≡ false

-- An object and libplum, as calls come on the object; other objects create mappings meanwhile, and
-- destroy their own, which have other identifiers.
pub data Reach (p : Plum) : PortMapping → Plum → Type 0 where
  made : Reach p new_port_mapping p
  initializes :
      {o : PortMapping} {q : Plum} (args : Option PortArguments) (r : PlumReply)
      → Reach p o q
      → Reach p (initialize_port_mapping args r o q).0 (initialize_port_mapping args r o q).1
  closes :
      {o : PortMapping} {q : Plum}
      → Reach p o q
      → Reach p (close_port_mapping o q).0 (close_port_mapping o q).1
  levels :
      {o : PortMapping} {q : Plum} (level : ℕ)
      → Reach p o q
      → Reach p o (set_port_log_level level q)
  others_create :
      {o : PortMapping} {q : Plum} (r : PlumReply) (port : ℕ)
      → Reach p o q
      → Reach p o (create_mapping port r q).0
  others_destroy :
      {o : PortMapping} {q : Plum} (m : Mapping)
      → NotOf m.id o.mapping
      → Reach p o q
      → Reach p o (destroy_mapping m q)

abbrev pub Usable : Option Mapping → Plum → Type 0
Usable none q = Unit {0}
Usable (some m) q = (q.initialized ≡ true) × (elem m.id q.live ≡ true)

self : (n : ℕ) → (n == n) ≡ true
self n = ground arith

elem-removed :
    (k id : ℕ) (l : List ℕ) → (k == id) ≡ false → elem k l ≡ true → elem k (removed id l) ≡ true
elem-removed k id [] h e = e
elem-removed k id (x ∷ l) h e = ground (arith, elem-removed k id l h)

-- What a new mapping leaves of libplum for the mappings that there are.
abbrev Kept : Option Mapping → Plum × Option Mapping → Type 0
Kept o r = Usable o r.0 × Usable r.1 r.0

mapped-Kept :
    (o : Option Mapping) (p : Plum) (id : Option ℕ)
    → p.initialized ≡ true
    → Usable o p
    → Kept o (mapped p id)
mapped-Kept o p none h v = (v, tt)
mapped-Kept none p (some id) h v = (tt, (h, if_true true (elem id p.live) (self id)))
mapped-Kept (some m) p (some id) h v =
    ((h, ground (arith, v.1)), (h, if_true true (elem id p.live) (self id)))

create_on-Kept :
    (o : Option Mapping) (r : PlumReply) (s : Plum × Bool)
    → (s.1 ≡ true → s.0.initialized ≡ true)
    → Usable o s.0
    → Kept o (create_on r s)
create_on-Kept o r (p, false) h v = (v, tt)
create_on-Kept o r (p, true) h v =
    if_cases (Kept o) (not r.allocated) (λ e. (v, tt)) (λ e. mapped-Kept o p r.created (h refl) v)

initialize_plum-Usable :
    (o : Option Mapping) (started : Bool) (p : Plum)
    → Usable o p
    → Usable o (initialize_plum started p).0
unfolding initialize_plum
initialize_plum-Usable none started p v = tt
initialize_plum-Usable (some m) started p v = ground (arith, v.0, v.1)

initialize_plum-initialized :
    (started : Bool) (p : Plum)
    → (initialize_plum started p).1 ≡ true
    → (initialize_plum started p).0.initialized ≡ true
unfolding initialize_plum
initialize_plum-initialized started p h = ground arith

create_mapping-Kept :
    (o : Option Mapping) (port : ℕ) (r : PlumReply) (p : Plum)
    → Usable o p
    → Kept o (create_mapping port r p)
unfolding create_mapping
create_mapping-Kept o port r p v =
    if_cases (Kept o) (port == 0) (λ h. (v, tt))
      (λ h.
        create_on-Kept o r (initialize_plum r.started p) (initialize_plum-initialized r.started p)
          (initialize_plum-Usable o r.started p v))

with_mapping-Usable :
    (o : PortMapping) (r : Plum × Option Mapping)
    → Usable r.1 r.0
    → Usable (with_mapping o r).0.mapping (with_mapping o r).1
with_mapping-Usable o (p, none) v = tt
with_mapping-Usable o (p, some m) v = v

initialize_port_mapping-Usable :
    (args : Option PortArguments) (r : PlumReply) (o : PortMapping) (p : Plum)
    → Usable o.mapping p
    → let s = initialize_port_mapping args r o p in Usable s.0.mapping s.1
unfolding initialize_port_mapping
initialize_port_mapping-Usable none r o p v = v
initialize_port_mapping-Usable (some args) r o p v =
    if_cases Good (args.internal_port == 0 || ltb 65535 args.internal_port) (λ h. v)
      (λ h.
        if_cases Good (not (Text.◌==◌ args.protocol "udp" || Text.◌==◌ args.protocol "tcp"))
          (λ k. v)
          (λ k.
            with_mapping-Usable o (create_mapping args.internal_port r p)
              (create_mapping-Kept o.mapping args.internal_port r p v).1))
  where
    Good : PortMapping × Plum × Result PyError (Unit {0}) → Type 0
    Good s = Usable s.0.mapping s.1

destroyed-Usable :
    (o : Option Mapping) (m : Mapping) (p : Plum)
    → NotOf m.id o
    → Usable o p
    → Usable o (destroy_mapping m p)
unfolding destroy_mapping
destroyed-Usable none m p n v = tt
destroyed-Usable (some k) m p n v =
    if_cases (Usable (some k)) m.destroyed (λ h. v)
      (λ h. (v.0, elem-removed k.id m.id p.live n v.1))

levels-Usable :
    (o : Option Mapping) (level : ℕ) (p : Plum) → Usable o p → Usable o (set_port_log_level level p)
unfolding set_port_log_level
levels-Usable none level p v = tt
levels-Usable (some m) level p v = v

Reach-Usable : {p q : Plum} {o : PortMapping} → Reach p o q → Usable o.mapping q
unfolding close_port_mapping
Reach-Usable made = tt
Reach-Usable (initializes {o} {q} args r run) =
    initialize_port_mapping-Usable args r o q (Reach-Usable run)
Reach-Usable (closes {o} {q} run) = tt
Reach-Usable (levels {o} {q} level run) = levels-Usable o.mapping level q (Reach-Usable run)
Reach-Usable (others_create {o} {q} r port run) =
    (create_mapping-Kept o.mapping port r q (Reach-Usable run)).0
Reach-Usable (others_destroy {o} {q} m n run) = destroyed-Usable o.mapping m q n (Reach-Usable run)

err-ne-ok : (e : PyError) (id : ℕ) → ◌≢◌ {A = Result PyError ℕ} (err e) (ok id)
err-ne-ok e id h = cc

asked :
    (m : Mapping) (destroyed : Bool) (id : ℕ) (e : PyError)
    → (if destroyed then err e else ok m.id) ≡ ok id
    → m.id ≡ id
asked m true id e h = absurd (err-ne-ok e id h)
asked m false id e h = cc

open_id :
    (closed : Bool) (o : Option Mapping) (p : Plum) (id : ℕ)
    → queried closed o ≡ ok id
    → Usable o p
    → (p.initialized ≡ true) × (elem id p.live ≡ true)
open_id closed none p id e v = absurd (err-ne-ok _ id e)
open_id true (some m) p id e v = absurd (err-ne-ok _ id e)
open_id false (some m) p id e v =
    subst (λ k. (p.initialized ≡ true) × (elem k p.live ≡ true)) (asked m m.destroyed id _ e) v

-- Whatever calls came on a port mapping and on others: a query that reaches libplum asks, of the
-- library that was initialised, for a mapping that was created and not destroyed.
pub Reach-query :
    {p q : Plum} {o : PortMapping} (id : ℕ)
    → Reach p o q
    → query_port_mapping o ≡ ok id
    → (q.initialized ≡ true) × (elem id q.live ≡ true)
unfolding query_port_mapping
Reach-query {p} {q} {o} id r e = open_id o.closed o.mapping q id e (Reach-Usable r)
