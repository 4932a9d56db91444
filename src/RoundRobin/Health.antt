-- ===== src/RoundRobin/Health.antt =====
-- vdi_round_robin_healthy of bin/varnishd/cache_dir_round_robin.c.
use pkg_varnish.Prelude.{
  suc, ◌+◌, ◌-◌, ◌≡◌, refl, sym, ap, ◌∙◌, Bool, true, false, ◌||◌, some, List, [], ◌∷◌, ◌++◌, arith,
  length, get_elem?, length-append, get_elem?-append_right,
}
use pkg_varnish.RoundRobin.{RoundRobin, or_healthy, healthy_loop, healthy}
use mathlib.Core.List.{append_assoc}

pub any : {A : Type 0} → (A → Bool) → List A → Bool
any h [] = false
any h (b ∷ bs) = h b || any h bs

module _ {W B : Type 0} (vdi_healthy : B → W → Bool × W) (h : B → Bool) where
  loop-any :
      (vs : RoundRobin B) (w : W)
      → ((b : B) → vdi_healthy b w ≡ (h b, w))
      → vs.nhosts ≡ length vs.hosts
      → (tried bs : List B) → vs.hosts ≡ tried ++ bs
      → healthy_loop vdi_healthy (length bs) vs w ≡ some (any h bs, w)
  unfolding healthy_loop any or_healthy
  loop-any vs w pure n tried [] e = refl
  loop-any vs w pure n tried (b ∷ bs) e =
      let a = length-append tried (b ∷ bs) in
      let l : length vs.hosts ≡ length (tried ++ b ∷ bs) = ap length e in
      let k : vs.nhosts - suc (length bs) ≡ length tried + 0 = omega arith in
      let here : get_elem? vs.hosts (vs.nhosts - suc (length bs)) ≡ some b =
        ap (get_elem? vs.hosts) k
        ∙ ap (λ hosts. get_elem? hosts (length tried + 0)) e
        ∙ get_elem?-append_right tried (b ∷ bs) 0 in
      let ih =
        loop-any vs w pure n (tried ++ b ∷ []) bs (e ∙ sym (append_assoc tried (b ∷ []) bs)) in
      rw (here, pure b) (answered (h b) ih)
    where
      answered :
          (x : Bool)
          → healthy_loop vdi_healthy (length bs) vs w ≡ some (any h bs, w)
          → or_healthy vdi_healthy (healthy_loop vdi_healthy (length bs) vs) (x, w)
            ≡ some (x || any h bs, w)
      answered true ih = refl
      answered false ih = ih

  -- Where asking for the health of a host changes nothing, vdi_round_robin_healthy says yes exactly
  -- where one of the hosts is healthy.
  pub healthy-any :
      (vs : RoundRobin B) (w : W)
      → ((b : B) → vdi_healthy b w ≡ (h b, w))
      → vs.nhosts ≡ length vs.hosts
      → healthy vdi_healthy vs w ≡ some (any h vs.hosts, w)
  unfolding healthy
  healthy-any vs w pure n =
      ap (λ rounds. healthy_loop vdi_healthy rounds vs w) n ∙ loop-any vs w pure n [] vs.hosts refl
