-- ===== src/Edge/Discovery/Edges.antt =====
-- The list of edges that `discover_edges` makes.
use libcfd.Prelude.{
  [], ℕ, ◌≡◌, ◌<◌, refl, sym, ap, ◌∙◌, String, Bool, true, false, ◌&&◌, ◌||◌, List, ◌∷◌, ◌++◌,
  Result, ok, ◌==◌, if◌then◌else◌, length, arith, Bytes, subst,
}
use libcfd.Edge.Discovery.{
  EdgeAddress, contains, push_new, push_host, push_hosts, SrvRecord, hosts, srv_lookup, non_empty,
  discover_edges,
}

-- No address stands twice.
pub IsDistinct : List EdgeAddress → Type 0
IsDistinct [] = Unit
IsDistinct (e ∷ edges) = (contains edges e ≡ false) × IsDistinct edges

IsDistinct-nil : IsDistinct []
unfolding IsDistinct
IsDistinct-nil = tt

or_assoc : (a b c : Bool) → (a || (b || c)) ≡ ((a || b) || c)
or_assoc true b c = refl
or_assoc false b c = refl

or_false : (a : Bool) → (a || false) ≡ a
or_false true = refl
or_false false = refl

or-false : (a b : Bool) → (a || b) ≡ false → (a ≡ false) × (b ≡ false)
or-false true b h = cc
or-false false b h = (refl, h)

abbrev same : EdgeAddress → EdgeAddress → Bool
same e a = e.ip == a.ip && e.port == a.port

same_sym : (e a : EdgeAddress) → same e a ≡ same a e
same_sym e a = ground arith

contains-append :
    (xs ys : List EdgeAddress) (a : EdgeAddress)
    → contains (xs ++ ys) a ≡ (contains xs a || contains ys a)
unfolding contains
contains-append [] ys a = refl
contains-append (x ∷ xs) ys a =
    rw (contains-append xs ys a) (or_assoc (same x a) (contains xs a) (contains ys a))

-- Adding one that is not there keeps the list distinct.
append-IsDistinct :
    (edges : List EdgeAddress) (a : EdgeAddress)
    → IsDistinct edges
    → contains edges a ≡ false
    → IsDistinct (edges ++ a ∷ [])
unfolding IsDistinct contains
append-IsDistinct [] a d h = (refl, tt)
append-IsDistinct (e ∷ edges) a (n, d) h =
    let (h', k) = or-false (same e a) (contains edges a) h in
    (
      rw (contains-append edges (a ∷ []) e, n) (or_false (same a e) ∙ same_sym a e ∙ h'),
      append-IsDistinct edges a d k,
    )

push_new-IsDistinct :
    (a : EdgeAddress) (edges : List EdgeAddress) → IsDistinct edges → IsDistinct (push_new a edges)
push_new-IsDistinct a edges d = pushed (contains edges a) refl
  where
    pushed : (b : Bool) → contains edges a ≡ b → IsDistinct (if b then edges else edges ++ a ∷ [])
    pushed true e = d
    pushed false e = append-IsDistinct edges a d e

push_host-IsDistinct :
    (port : ℕ) (ips : List ℕ) (edges : List EdgeAddress)
    → IsDistinct edges
    → IsDistinct (push_host port ips edges)
unfolding push_host
push_host-IsDistinct port [] edges d = d
push_host-IsDistinct port (ip ∷ ips) edges d =
    push_host-IsDistinct port ips _ (push_new-IsDistinct _ edges d)

push_hosts-IsDistinct :
    (resolve_host : Bytes → List ℕ) (records : List SrvRecord) (edges : List EdgeAddress)
    → IsDistinct edges
    → IsDistinct (push_hosts resolve_host records edges)
unfolding push_hosts
push_hosts-IsDistinct resolve_host [] edges d = d
push_hosts-IsDistinct resolve_host ((host, port) ∷ records) edges d =
    push_hosts-IsDistinct resolve_host records _
      (push_host-IsDistinct port (resolve_host host) edges d)

non_empty-ok :
    (edges : List EdgeAddress) {r : List EdgeAddress}
    → non_empty edges ≡ ok r
    → (edges ≡ r) × (0 < length edges)
non_empty-ok [] h = cc
non_empty-ok (e ∷ edges) h = (cc, omega arith)

same-eq : (e a x : EdgeAddress) → same a x ≡ true → same e a ≡ same e x
same-eq e a x h = ground arith

contains-same :
    (edges : List EdgeAddress) (a x : EdgeAddress)
    → same a x ≡ true
    → contains edges a ≡ contains edges x
unfolding contains
contains-same [] a x h = refl
contains-same (e ∷ edges) a x h = rw (same-eq e a x h, contains-same edges a x h)

contains-push_new :
    (a : EdgeAddress) (edges : List EdgeAddress) (x : EdgeAddress)
    → contains (push_new a edges) x ≡ (contains edges x || same a x)
unfolding contains
contains-push_new a edges x = pushed (contains edges a) (same a x) refl refl
  where
    pushed :
        (b c : Bool)
        → contains edges a ≡ b
        → same a x ≡ c
        → contains (if b then edges else edges ++ a ∷ []) x ≡ (contains edges x || c)
    pushed true true e s = let k = sym (contains-same edges a x s) ∙ e in rw k
    pushed true false e s = sym (or_false (contains edges x))
    pushed false c e s =
        rw (contains-append edges (a ∷ []) x, s) (ap (λ d. contains edges x || d) (or_false c))

-- What the lookups give: an address with the port of a record, resolved from its host.
elem : ℕ → List ℕ → Bool
elem ip [] = false
elem ip (i ∷ ips) = i == ip || elem ip ips

pub is_resolved : (Bytes → List ℕ) → List SrvRecord → EdgeAddress → Bool
unfolding elem
is_resolved resolve_host [] x = false
is_resolved resolve_host ((host, port) ∷ records) x =
    (elem x.ip (resolve_host host) && (port == x.port)) || is_resolved resolve_host records x

contains-push_host :
    (port : ℕ) (ips : List ℕ) (edges : List EdgeAddress) (x : EdgeAddress)
    → contains (push_host port ips edges) x
      ≡ (contains edges x || (elem x.ip ips && (port == x.port)))
unfolding push_host elem
contains-push_host port [] edges x = sym (or_false (contains edges x))
contains-push_host port (ip ∷ ips) edges x =
    contains-push_host port ips (push_new (record { ip = ip; port = port }) edges) x
    ∙ ap (λ b. b || (elem x.ip ips && (port == x.port)))
        (contains-push_new (record { ip = ip; port = port }) edges x)
    ∙ distributed (contains edges x) (ip == x.ip) (port == x.port) (elem x.ip ips)
  where
    distributed : (c i p e : Bool) → ((c || (i && p)) || (e && p)) ≡ (c || ((i || e) && p))
    distributed true i p e = refl
    distributed false true true e = refl
    distributed false true false true = refl
    distributed false true false false = refl
    distributed false false p e = refl

contains-push_hosts :
    (resolve_host : Bytes → List ℕ) (records : List SrvRecord) (edges : List EdgeAddress)
    (x : EdgeAddress)
    → contains (push_hosts resolve_host records edges) x
      ≡ (contains edges x || is_resolved resolve_host records x)
unfolding push_hosts is_resolved
contains-push_hosts resolve_host [] edges x = sym (or_false (contains edges x))
contains-push_hosts resolve_host ((host, port) ∷ records) edges x =
    contains-push_hosts resolve_host records (push_host port (resolve_host host) edges) x
    ∙ ap (λ b. b || is_resolved resolve_host records x)
        (contains-push_host port (resolve_host host) edges x)
    ∙ sym (
        or_assoc (contains edges x) (elem x.ip (resolve_host host) && (port == x.port))
          (is_resolved resolve_host records x))

-- The edges that are found are not empty, none stands twice, and they are exactly the addresses
-- that the hosts of the records, or of the fallback list where no resolver has a record, resolve to.
pub discover_edges-resolved :
    (resolve_host : Bytes → List ℕ) (fallback_edges : List Bytes)
    (answers : List (Result String (List SrvRecord))) {edges : List EdgeAddress}
    → discover_edges resolve_host fallback_edges answers ≡ ok edges
    → (0 < length edges)
      × IsDistinct edges
      × ((x : EdgeAddress)
          → contains edges x
            ≡ is_resolved resolve_host (hosts fallback_edges (srv_lookup answers)) x)
unfolding discover_edges contains
discover_edges-resolved resolve_host fallback_edges answers h =
    let records = hosts fallback_edges (srv_lookup answers) in
    let (e, n) = non_empty-ok (push_hosts resolve_host records []) h in
    (
      subst (λ r. 0 < length r) e n,
      subst IsDistinct e (push_hosts-IsDistinct resolve_host records [] IsDistinct-nil),
      λ x.
          ap (λ r. contains r x) (sym e)
          ∙ contains-push_hosts resolve_host records [] x
          ∙ nothing records x,
    )
  where
    nothing :
        (records : List SrvRecord) (x : EdgeAddress)
        → (contains [] x || is_resolved resolve_host records x) ≡ is_resolved resolve_host records x
    nothing records x = refl
