-- ===== src/Hash.antt =====
-- bin/varnishd/cache_hash.c: one objhead, the objects under one hash key, and the sessions that wait.
-- `none` is an assertion that fails. A non-null `waitinglist` is one that holds a session. A busy
-- objcore is one with a busyobj. Whether Vary matches, a ban hits or the backend is healthy for a
-- session, and whether a session can be queued, are arguments. Left out are the checks of magic
-- numbers and of the pointers from an objcore to its objhead; the assertions on what a session and its
-- worker hold besides are in World.
pub mod Scan
pub mod Decide
pub mod Fresh
pub mod Rush
pub mod Counts
pub mod World
pub mod Balance
pub mod Release
pub mod Steps
pub mod Reach
pub mod Tests
use pkg_varnish.Prelude.{
  ℕ, zero, suc, ◌+◌, ◌-◌, ◌*◌, ◌/◌, ◌%◌, ◌^◌, ◌≤◌, ◌<◌, ◌≡◌, refl, sym, ap, ◌∙◌, ◌≢◌, ◌↔◌, ◌⊎◌, inl,
  inr, Bool, true, false, not, ◌&&◌, ◌||◌, Option, none, some, List, [], ◌∷◌, ◌++◌, arith, ltb, leb,
  ◌==◌, if◌then◌else◌, ltb→lt, leb→le, ==_iff, Bool-cases, Option-cases, length, get_elem?, set,
  take, drop, length-append, take-nil, take_all, length-take_le, get_elem?-append_left,
  get_elem?-append_right, get_elem?-drop, get_elem?-take, length-drop_le, drop-append_left,
  take-append_left, take-append_right, drop-append_right, drop-drop, drop-nil, ◌>>=◌, ◌>>◌, assert,
}
use pkg_varnish.Expire.{Exp, is_positive, after, exp_ttl, exp_grace}

pub record Object : Type 0 where
  pub exp : Exp
  pub vary : Option (List ℕ)
  pub hits : ℕ

-- `busyobj` holds the busy object's vary string; `object` is what `methods` lead to; `ban` is whether
-- there is one. It is read of a busy objcore only, and no ban check reaches those.
pub record Objcore : Type 0 where
  pub id : ℕ
  pub refcnt : ℕ
  pub busyobj : Option (Option (List ℕ))
  pub object : Option Object
  pub ban : Bool

pub record Objhead : Type 0 where
  pub refcnt : ℕ
  pub objcs : List Objcore
  pub waitinglist : List ℕ

-- What HSH_Lookup reads of a session. `vary` is `vary_b`, or null where `vary_l` is.
pub record Sess : Type 0 where
  pub id : ℕ
  pub hash_ignore_busy : Bool
  pub hash_always_miss : Bool
  pub esi_level : ℕ
  pub t_req : ℕ
  pub exp : Exp
  pub vary : Option (List ℕ)

-- What the body of the loop makes of an objcore. A grace candidate comes with the end of its ttl.
pub data Verdict : Type 0 where
  pass_over busy live : Verdict
  in_grace : ℕ → Verdict

pub record Seen : Type 0 where
  pub busy_oc : Option Objcore
  pub grace_oc : Option Objcore
  pub grace_ttl : ℕ

abbrev pub is_some {ℓ} : {A : Type ℓ} → Option A → Bool
is_some none = false
is_some (some a) = true

abbrev pub int_max : ℕ
int_max = 2 ^ 31 - 1

-- The first objcore of this address.
pub find_oc : List Objcore → ℕ → Option Objcore
find_oc [] id = none
find_oc (oc ∷ ocs) id = if oc.id == id then some oc else find_oc ocs id

pub update_oc : List Objcore → Objcore → List Objcore
update_oc [] new = []
update_oc (oc ∷ ocs) new = if oc.id == new.id then new ∷ ocs else oc ∷ update_oc ocs new

-- VTAILQ_REMOVE.
pub remove_oc : List Objcore → ℕ → List Objcore
remove_oc [] id = []
remove_oc (oc ∷ ocs) id = if oc.id == id then ocs else oc ∷ remove_oc ocs id

-- oc_getobj.
pub getobj : Objcore → Option Object
getobj oc = if is_some oc.busyobj then none else oc.object

-- hash->deref: whether references are left.
pub deref_oh : Objhead → Bool × Objhead
deref_oh oh = (not (oh.refcnt - 1 == 0), record oh { refcnt = oh.refcnt - 1 })

module _ (vry_match : Sess → List ℕ → Bool) (ban_check : Sess → Object → Bool)
    (default_grace : ℕ) where
  pub vary_ok : Sess → Option (List ℕ) → Bool
  vary_ok sp none = true
  vary_ok sp (some vary) = vry_match sp vary

  pub classify_object : Sess → Object → Verdict
  unfolding vary_ok
  classify_object sp o =
      if not (is_positive o.exp.ttl)
      then pass_over
      else if ban_check sp o
      then pass_over
      else if not (vary_ok sp o.vary)
      then pass_over
      else if leb sp.t_req (exp_ttl (some sp.exp) o.exp)
      then live
      else if leb sp.t_req (exp_grace default_grace 0 (some sp.exp) o.exp)
      then in_grace (after o.exp.entered o.exp.ttl)
      else pass_over

  pub classify_busy : Sess → Option (List ℕ) → Verdict
  unfolding vary_ok
  classify_busy sp vary =
      if sp.hash_ignore_busy || sp.hash_always_miss
      then pass_over
      else if not (vary_ok sp vary)
      then pass_over
      else busy

  pub classify_by : Sess → Option (Option (List ℕ)) → Option Object → Option Verdict
  classify_by sp (some vary) object = some (classify_busy sp vary)
  classify_by sp none none = none
  classify_by sp none (some o) = some (classify_object sp o)

  pub classify : Sess → Objcore → Option Verdict
  unfolding classify_by
  classify sp oc = classify_by sp oc.busyobj oc.object

better : Seen → ℕ → Bool
better seen ttl = not (is_some seen.grace_oc) || ltb seen.grace_ttl ttl

pub note : Seen → Objcore → Verdict → Seen
unfolding better
note seen oc pass_over = seen
note seen oc live = seen
note seen oc busy = record seen { busy_oc = some oc }
note seen oc (in_grace ttl) =
    if better seen ttl then record seen { grace_oc = some oc; grace_ttl = ttl } else seen

abbrev pub nothing_seen : Seen
nothing_seen = record { busy_oc = none; grace_oc = none; grace_ttl = 0 }

-- What HSH_Lookup comes to: an object to use, a wait, or a new busy objcore to fetch into.
pub data Outcome : Type 0 where
  hit : Objcore → Outcome
  wait miss : Outcome

-- The objcore that is used: the live one; or the candidate in grace, where somebody is fetching already
-- or the backend is not healthy.
pub pick : Option Objcore → Seen → Bool → Option Objcore
pick (some oc) seen healthy = some oc
pick none seen healthy = if is_some seen.busy_oc || not healthy then seen.grace_oc else none

unfoldable pub hit_object : Object → Object
hit_object o = if ltb o.hits int_max then record o { hits = o.hits + 1 } else o

pub use_oc : Objhead → Objcore → Option (Outcome × Objhead)
unfolding hit_object deref_oh
use_oc oh oc = do
  o ← getobj oc
  let used : Objcore = record oc { refcnt = oc.refcnt + 1; object = some (hit_object o) }
  assert (ltb 1 oh.refcnt)
  let (left, oh') = deref_oh (record oh { objcs = update_oc oh.objcs used })
  assert left
  some (hit used, oh')

-- On the waiting list, but for the request of an include, which asks again by itself.
pub wait_on : Objhead → Sess → Objhead
wait_on oh sp =
    if sp.esi_level == 0 then record oh { waitinglist = oh.waitinglist ++ sp.id ∷ [] } else oh

-- `nobjcore` is the address of the objcore made before. The assertions on it and on the session are
-- World.lookup_asserts.
pub insert_busy : Objhead → Sess → ℕ → Objhead
insert_busy oh sp nobjcore =
    let oc : Objcore = record {
      id = nobjcore;
      refcnt = 1;
      busyobj = some sp.vary;
      object = none;
      ban = false;
    } in
    record oh { objcs = oh.objcs ++ oc ∷ [] }

pub settle : Objhead → Sess → ℕ → Option Objcore → Seen → Option (Outcome × Objhead)
unfolding use_oc wait_on insert_busy
settle oh sp nobjcore picked seen =
    let used = picked >>= use_oc oh in
    if is_some picked && not sp.hash_always_miss
    then used
    else if is_some seen.busy_oc
    then some (wait, wait_on oh sp)
    else some (miss, insert_busy oh sp nobjcore)

module _ (vry_match : Sess → List ℕ → Bool) (ban_check : Sess → Object → Bool)
    (vdi_healthy : Sess → Bool) (default_grace : ℕ) where
  -- `break` at a live object.
  turn :
      (Seen → Option (Option Objcore × Seen))
      → Seen
      → Objcore
      → Verdict
      → Option (Option Objcore × Seen)
  turn next seen oc live = some (some oc, seen)
  turn next seen oc pass_over = next seen
  turn next seen oc busy = next (note seen oc busy)
  turn next seen oc (in_grace ttl) = next (note seen oc (in_grace ttl))

  pub scan : ℕ → Sess → List Objcore → Seen → Option (Option Objcore × Seen)
  unfolding turn
  scan refcnt sp [] seen = some (none, seen)
  scan refcnt sp (oc ∷ ocs) seen = do
    assert (ltb 1 refcnt)
    v ← classify vry_match ban_check default_grace sp oc
    turn (scan refcnt sp ocs) seen oc v

  -- The objhead comes with the reference that the session holds.
  pub lookup : Objhead → Sess → ℕ → Option (Outcome × Objhead)
  unfolding settle
  lookup oh sp nobjcore = do
    assert (ltb 0 oh.refcnt)
    (oc, seen) ← scan oh.refcnt sp oh.objcs nothing_seen
    settle oh sp nobjcore (pick oc seen (vdi_healthy sp)) seen

-- hash->lookup where the key is there already.
unfoldable pub acquire : Objhead → Objhead
acquire oh = record oh { refcnt = oh.refcnt + 1 }

-- HSH_Insert, of an objcore that has its object and its ban.
unfoldable pub insert_ready : Objhead → ℕ → Object → Option Objhead
insert_ready oh nobjcore o =
    let oc : Objcore = record {
      id = nobjcore;
      refcnt = 1;
      busyobj = none;
      object = some o;
      ban = true;
    } in
    assert (ltb 0 oh.refcnt) >> some record oh { objcs = oc ∷ oh.objcs }

-- hsh_rush: the sessions queued, the session dropped if one could not be, and those still waiting.
pub record Rushed : Type 0 where
  pub queued : List ℕ
  pub dropped : List ℕ
  pub waiting : List ℕ

module _ (queue_fails : ℕ → Bool) (rush_exponent : ℕ) where
  queue_first : (List ℕ → Rushed) → ℕ → List ℕ → Rushed
  queue_first next sp wl =
      let rest = next wl in
      if queue_fails sp
      then record { queued = []; dropped = sp ∷ []; waiting = wl }
      else record { queued = sp ∷ rest.queued; dropped = rest.dropped; waiting = rest.waiting }

  pub rush_loop : ℕ → List ℕ → Rushed
  rush_loop zero wl = record { queued = []; dropped = []; waiting = wl }
  rush_loop (suc u) [] = record { queued = []; dropped = []; waiting = [] }
  rush_loop (suc u) (sp ∷ wl) = queue_first (rush_loop u) sp wl

  pub rush : Objhead → Rushed × Objhead
  rush oh =
      let r = rush_loop rush_exponent oh.waitinglist in (r, record oh { waitinglist = r.waiting })

  -- `id` is the session's objcore, and `nbusyobj` whether the worker has a busyobj to spare.
  pub unbusy : Bool → Objhead → ℕ → Option (Rushed × Objhead)
  unbusy nbusyobj oh id = do
    oc ← find_oc oh.objcs id
    assert (is_some oc.busyobj)
    assert (is_some oc.object)
    assert oc.ban
    assert (ltb 0 oc.refcnt)
    assert (ltb 0 oh.refcnt)
    assert (not nbusyobj)
    let idle : Objcore = record oc { busyobj = none }
    let r = rush (record oh { objcs = idle ∷ remove_oc oh.objcs id })
    assert (idle.ban && is_some (getobj idle))
    some r

  pub ref : Objhead → ℕ → Option Objhead
  ref oh id = do
    oc ← find_oc oh.objcs id
    assert (ltb 0 oc.refcnt)
    some record oh { objcs = update_oc oh.objcs (record oc { refcnt = oc.refcnt + 1 }) }

  unfoldable pub drop_ref : Objhead → Objcore → Option Objhead
  drop_ref oh oc =
      let r = oc.refcnt - 1 in
      if r == 0
      then some (record oh { objcs = remove_oc oh.objcs oc.id })
      else (assert (is_some oc.object)
          >> some (record oh { objcs = update_oc oh.objcs (record oc { refcnt = r }) }))

  -- The end of HSH_Deref: the objcore's reference on the objhead goes, and the objhead with the last
  -- one, which asserts that it is empty.
  unfoldable pub release_oh : Objhead → Option Objhead
  unfolding deref_oh
  release_oh oh = do
    assert (ltb 0 oh.refcnt)
    let (left, oh') = deref_oh oh
    assert (left || not (ltb 0 (length oh'.objcs)))
    some oh'

  -- What HSH_Deref does to an objcore behind its last reference: BAN_DestroyObj, and the busyobj that
  -- the worker takes back or frees.
  unfoldable pub give_up : Objcore → Objcore
  give_up oc = record oc { ban = false; busyobj = none }

  pub deref : Objhead → ℕ → Option (Rushed × Objhead)
  unfolding drop_ref release_oh give_up
  deref oh id = do
    oc ← find_oc oh.objcs id
    assert (ltb 0 oh.refcnt)
    assert (ltb 0 oc.refcnt)
    oh' ← drop_ref oh oc
    let (r, oh'') = rush oh'
    let given_up = give_up oc
    let freed = assert (not given_up.ban && not (is_some given_up.busyobj)) >> release_oh oh''
    if oc.refcnt - 1 == 0 then (freed >>= λ last. some (r, last)) else some (r, oh'')
