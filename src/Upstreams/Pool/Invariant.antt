-- ===== src/Upstreams/Pool/Invariant.antt =====
-- What the pool keeps through every chain of events.
use text.Mathlib.Text.{◌==◌ as str_eq}
use text.Mathlib.TextEquality.{eq_iff}
use text.Mathlib.TextPositions.{eq_refl}
use aurora_api_gateway.Prelude.{
  ◌+◌, ◌≤◌, ◌≡◌, refl, sym, ap, ◌∙◌, inl, inr, String, Bool, false, ◌&&◌, ◌||◌, not, List, [], ◌∷◌,
  ◌++◌, map, leb, if◌then◌else◌, length, keep, any, Bool-cases, arith, length-append, length-map,
}
use aurora_api_gateway.Upstreams.Pool.{
  UpstreamNode, NodeChange, set_address, set_weight, set_max_fails, set_fail_timeout, set_backup,
  change_node, update_node, stamped, blank_node, handle_add_node, handle_update_node,
  handle_remove_node, PoolEvent, add_node, update, remove_node, pool_step,
}

abbrev pub has_id : String → List UpstreamNode → Bool
has_id id = any (λ n. str_eq n.id id)

abbrev pub HasDistinctIds : List UpstreamNode → Type 0
HasDistinctIds [] = Unit
HasDistinctIds (n ∷ ns) = (has_id n.id ns ≡ false) × HasDistinctIds ns

-- A pool that the page can show: it has a server, and an id names one server.
pub record IsPool (servers : List UpstreamNode) : Type 0 where
  pub distinct : HasDistinctIds servers
  pub occupied : 1 ≤ length servers

pub any-append :
    {A : Type 0} (p : A → Bool) (xs ys : List A) → any p (xs ++ ys) ≡ (any p xs || any p ys)
any-append p [] ys = refl
any-append p (x ∷ xs) ys = ground (arith, any-append p xs ys)

pub any-keep :
    {A : Type 0} (p q : A → Bool) (xs : List A) → any p xs ≡ false → any p (keep q xs) ≡ false
any-keep p q [] h = refl
any-keep p q (x ∷ xs) h = ground (arith, any-keep p q xs)

HasDistinctIds-append_one :
    (n : UpstreamNode) (ns : List UpstreamNode)
    → HasDistinctIds ns
    → has_id n.id ns ≡ false
    → HasDistinctIds (ns ++ n ∷ [])
HasDistinctIds-append_one n [] h fresh = (refl, tt)
HasDistinctIds-append_one n (m ∷ ns) (d, h) fresh = (
  any-append (λ k. str_eq k.id m.id) ns (n ∷ [])
      ∙ ground (arith, eq_iff m.id n.id, eq_iff n.id m.id),
  HasDistinctIds-append_one n ns h (ground arith),
)

HasDistinctIds-keep :
    (q : UpstreamNode → Bool) (ns : List UpstreamNode)
    → HasDistinctIds ns
    → HasDistinctIds (keep q ns)
HasDistinctIds-keep q [] h = tt
HasDistinctIds-keep q (n ∷ ns) (d, h) = elim (Bool-cases (q n)) [
  | inl e ↦ rw e (any-keep (λ m. str_eq m.id n.id) q ns d, HasDistinctIds-keep q ns h)
  | inr e ↦ rw e (HasDistinctIds-keep q ns h)
]

change_node_id : (change : NodeChange) (n : UpstreamNode) → (change_node change n).id ≡ n.id
unfolding change_node
change_node_id (set_address s) n = refl
change_node_id (set_weight w) n = refl
change_node_id (set_max_fails w) n = refl
change_node_id (set_fail_timeout s) n = refl
change_node_id (set_backup b) n = refl

update_node_id :
    (id : String) (change : NodeChange) (n : UpstreamNode) → (update_node id change n).id ≡ n.id
unfolding update_node
update_node_id id change n = elim (Bool-cases (str_eq n.id id)) [
  | inl e ↦ ap (λ b. (if b then change_node change n else n).id) e ∙ change_node_id change n
  | inr e ↦ ap (λ b. (if b then change_node change n else n).id) e
]

has_id-update :
    (i id : String) (change : NodeChange) (ns : List UpstreamNode)
    → has_id i (map (update_node id change) ns) ≡ has_id i ns
has_id-update i id change [] = refl
has_id-update i id change (n ∷ ns) =
    λ j. str_eq (update_node_id id change n j) i || has_id-update i id change ns j

HasDistinctIds-update :
    (id : String) (change : NodeChange) (ns : List UpstreamNode)
    → HasDistinctIds ns
    → HasDistinctIds (map (update_node id change) ns)
HasDistinctIds-update id change [] h = tt
HasDistinctIds-update id change (n ∷ ns) (d, h) = (
  ap (λ i. has_id i (map (update_node id change) ns)) (update_node_id id change n)
      ∙ has_id-update n.id id change ns
      ∙ d,
  HasDistinctIds-update id change ns h,
)

abbrev pub others : String → List UpstreamNode → List UpstreamNode
others id = keep (λ n. not (str_eq n.id id))

others_of_absent : (id : String) (ns : List UpstreamNode) → has_id id ns ≡ false → others id ns ≡ ns
others_of_absent id [] h = refl
others_of_absent id (n ∷ ns) h =
    let first : str_eq n.id id ≡ false = ground arith in
    rw first (ap (λ ms. n ∷ ms) (others_of_absent id ns (ground arith)))

-- Where ids are distinct, one server at most has the id.
length-others :
    (id : String) (ns : List UpstreamNode)
    → HasDistinctIds ns
    → length ns ≡ length (others id ns) + (if has_id id ns then 1 else 0)
length-others id [] h = refl
length-others id (n ∷ ns) (d, h) = elim (Bool-cases (str_eq n.id id)) [
  | inl e ↦
      let same : n.id ≡ id = (eq_iff n.id id).0 e in
      let absent : has_id id ns ≡ false = ap (λ i. has_id i ns) (sym same) ∙ d in
      rw (e, others_of_absent id ns absent) (omega arith)
  | inr e ↦ rw e (omega (arith, length-others id ns h))
]

-- The number of servers after a removal.
handle_remove_node-length :
    (id : String) (servers : List UpstreamNode)
    → IsPool servers
    → length servers
      ≡ length (handle_remove_node id servers)
        + (if not (leb (length servers) 1) && has_id id servers then 1 else 0)
unfolding handle_remove_node
handle_remove_node-length id servers v = elim (Bool-cases (leb (length servers) 1)) [
  | inl e ↦ rw e (omega arith)
  | inr e ↦ rw e (length-others id servers v.distinct)
]

-- With distinct ids, taking a server's id out of the list takes out that server alone.
others_of_pool :
    (pre : List UpstreamNode) (n : UpstreamNode) (post : List UpstreamNode)
    → HasDistinctIds (pre ++ n ∷ post)
    → others n.id (pre ++ n ∷ post) ≡ pre ++ post
others_of_pool [] n post (d, h) = rw (eq_refl n.id) (others_of_absent n.id post d)
others_of_pool (m ∷ pre) n post (d, h) =
    let split = any-append (λ k. str_eq k.id m.id) pre (n ∷ post) in
    let other : str_eq m.id n.id ≡ false = ground (arith, eq_iff m.id n.id, eq_iff n.id m.id) in
    rw other (ap (λ ms. m ∷ ms) (others_of_pool pre n post h))

-- Removing the id of a server takes that server out of the pool and leaves all the others as they
-- were, in order, where the ids are distinct and another server is left.
pub handle_remove_node-append :
    (pre : List UpstreamNode) (n : UpstreamNode) (post : List UpstreamNode)
    → IsPool (pre ++ n ∷ post)
    → 1 ≤ length (pre ++ post)
    → handle_remove_node n.id (pre ++ n ∷ post) ≡ pre ++ post
unfolding handle_remove_node
handle_remove_node-append pre n post v left =
    let several : leb (length (pre ++ n ∷ post)) 1 ≡ false =
      ground (arith, length-append pre (n ∷ post), length-append pre post) in
    rw several (others_of_pool pre n post v.distinct)

-- A server is added under an id that is not in the pool.
abbrev pub IsFresh : List UpstreamNode → PoolEvent → Type 0
IsFresh servers (add_node now) = has_id (stamped "node-" now) servers ≡ false
IsFresh servers _ = Unit

pool_step-IsPool :
    (servers : List UpstreamNode) (e : PoolEvent)
    → IsPool servers
    → IsFresh servers e
    → IsPool (pool_step servers e)
unfolding pool_step handle_add_node handle_update_node
pool_step-IsPool servers (add_node now) v fresh = record {
  distinct = HasDistinctIds-append_one (blank_node (stamped "node-" now)) servers v.distinct fresh;
  occupied = omega (arith, length-append servers (blank_node (stamped "node-" now) ∷ []));
}
pool_step-IsPool servers (update id change) v fresh = record {
  distinct = HasDistinctIds-update id change servers v.distinct;
  occupied = rw (length-map (update_node id change) servers) (v.occupied);
}
pool_step-IsPool servers (remove_node id) v fresh = record {
  distinct =
      unfold handle_remove_node in
      elim (Bool-cases (leb (length servers) 1)) [
        | inl e ↦ rw e (v.distinct)
        | inr e ↦ rw e (HasDistinctIds-keep _ servers v.distinct)
      ];
  occupied =
      let known : 1 ≤ length servers = v.occupied in
      ground (arith, handle_remove_node-length id servers v);
}

unfoldable pub run : List UpstreamNode → List PoolEvent → List UpstreamNode
run servers [] = servers
run servers (e ∷ es) = run (pool_step servers e) es

-- Each server that is added comes at its own time.
unfoldable pub FreshRun : List UpstreamNode → List PoolEvent → Type 0
FreshRun servers [] = Unit
FreshRun servers (e ∷ es) = IsFresh servers e × FreshRun (pool_step servers e) es

-- Whatever is done to a pool, it keeps a server and distinct ids, as long as no server is added under
-- the id of one that is there.
pub run-IsPool :
    (servers : List UpstreamNode) (es : List PoolEvent)
    → IsPool servers
    → FreshRun servers es
    → IsPool (run servers es)
unfolding run FreshRun
run-IsPool servers [] v fresh = v
run-IsPool servers (e ∷ es) v (f, fresh) =
    run-IsPool (pool_step servers e) es (pool_step-IsPool servers e v f) fresh
