-- ===== src/Actuator/Server/Nearer.antt =====
-- cmd/actuator: how far a request is from its answer, and what its steps do to that.
use ebpf_ssf_broker.Base.{ℕ, ◌+◌, ◌≤◌, ◌<◌, ◌≡◌, refl, ◌⊎◌, inl, inr, [], ◌∷◌, arith, length}
use ebpf_ssf_broker.Actuator.Goroutines.LabelSide.{IsListed-step, IsListed, looping, ended}
use ebpf_ssf_broker.Caep.Set.{SetClaims}
use ebpf_ssf_broker.Actuator.Events.{Deps, State}
use ebpf_ssf_broker.Actuator.Goroutines.{
  mesh_step_at, label_step_at, MeshAt, at_check, at_patch, at_delete, mesh_returned, LabelAt,
  at_list, at_pods, label_returned,
}
use ebpf_ssf_broker.Actuator.Goroutines.MeshSide.{mesh_left, left-mesh_step}
use ebpf_ssf_broker.Actuator.Registry.{Client, Registered}
use ebpf_ssf_broker.Actuator.Server.Fits.{begun, Begun, turned_away, malformed, started}
use ebpf_ssf_broker.Actuator.Server.{
  arriving, waiting, reporting, answered, wait, advance, Part, handler_side, mesh_side, label_side,
  RequestAt, Incoming,
}
use ebpf_ssf_broker.Go.Http.{Response}

-- How far a request is from its answer: the stage, and the steps left in it. How many pods the List
-- will show is not known in front of it, so the List ends a stage.
abbrev pub stage : RequestAt → ℕ
stage arriving = 3
stage (waiting claims a at_list) = 2
stage (waiting claims a (at_pods ns sa pods n errs)) = 1
stage (waiting claims a (label_returned n errs)) = 1
stage (reporting calls response) = 0
stage (answered response) = 0

abbrev pub steps_left : RequestAt → ℕ
steps_left arriving = 0
steps_left (waiting claims a at_list) = mesh_left a
steps_left (waiting claims a (at_pods ns sa pods n errs)) = mesh_left a + length pods + 1
steps_left (waiting claims a (label_returned n errs)) = mesh_left a
steps_left (reporting calls response) = length calls + 1
steps_left (answered response) = 0

-- A goroutine that is not blocked.
abbrev pub needed : RequestAt → Part
needed arriving = handler_side
needed (waiting claims at_check b) = mesh_side
needed (waiting claims (at_patch body) b) = mesh_side
needed (waiting claims (at_delete e) b) = mesh_side
needed (waiting claims (mesh_returned o) at_list) = label_side
needed (waiting claims (mesh_returned o) (at_pods ns sa pods n errs)) = label_side
needed (waiting claims (mesh_returned o) (label_returned n errs)) = handler_side
needed (reporting calls response) = handler_side
needed (answered response) = handler_side

-- Nearer to the answer.
abbrev pub IsNearer : RequestAt → RequestAt → Type 0
IsNearer x y = (stage x < stage y) ⊎ ((stage x ≡ stage y) × (steps_left x < steps_left y))

module _ (d : Deps) (p : Client) (r : Incoming) (st : State d) (ms : Registered p) where
  IsNearer-begun : {x : RequestAt} → Begun d r x → IsNearer x arriving
  IsNearer-begun (turned_away response a s) = inl (omega arith)
  IsNearer-begun (malformed response a s bad) = inl (omega arith)
  IsNearer-begun (started claims a c) = inl (omega arith)

  -- A step of revokeInMesh brings the request nearer, unless it has returned.
  IsNearer-mesh :
      (claims : SetClaims) (a a' : MeshAt) (b : LabelAt)
      → mesh_left a' < mesh_left a
      → IsNearer (waiting claims a' b) (waiting claims a b)
  IsNearer-mesh claims a a' at_list h = inr (refl, h)
  IsNearer-mesh claims a a' (at_pods ns sa pods n errs) h = inr (refl, omega (arith, h))
  IsNearer-mesh claims a a' (label_returned n errs) h = inr (refl, h)

  mesh-IsNearer :
      (claims : SetClaims) (a : MeshAt) (b : LabelAt)
      → 1 ≤ mesh_left a
      → IsNearer (advance d p r mesh_side st ms (waiting claims a b)).at (waiting claims a b)
  unfolding advance
  mesh-IsNearer claims a b h =
      IsNearer-mesh claims a (mesh_step_at d claims.sub_id.uri a st.revoked st.policies).at b
        (omega (arith, h, left-mesh_step d claims.sub_id.uri a st.revoked st.policies))

  IsNearer-listed :
      (claims : SetClaims) (a : MeshAt) {b : LabelAt}
      → IsListed b
      → IsNearer (waiting claims a b) (waiting claims a at_list)
  IsNearer-listed claims a (looping ns sa pods n errs) = inl (omega arith)
  IsNearer-listed claims a (ended n errs) = inl (omega arith)

  -- Any step of a request leaves it where it stands, or brings it nearer; the step of a goroutine
  -- that is not blocked brings it nearer.
  pub advances :
      (part : Part) (x : RequestAt)
      → ((advance d p r part st ms x).at ≡ x) ⊎ IsNearer (advance d p r part st ms x).at x
  unfolding advance wait
  advances handler_side arriving = inr (IsNearer-begun (begun d r))
  advances handler_side (waiting claims (mesh_returned o) (label_returned n errs)) =
      inr (inl (omega arith))
  advances handler_side (waiting claims (mesh_returned o) at_list) = inl refl
  advances handler_side (waiting claims (mesh_returned o) (at_pods ns sa pods n errs)) = inl refl
  advances handler_side (waiting claims at_check b) = inl refl
  advances handler_side (waiting claims (at_patch body) b) = inl refl
  advances handler_side (waiting claims (at_delete e) b) = inl refl
  advances handler_side (reporting [] response) = inr (inr (refl, omega arith))
  advances handler_side (reporting (m ∷ calls) response) = inr (inr (refl, omega arith))
  advances handler_side (answered response) = inl refl
  advances mesh_side arriving = inl refl
  advances mesh_side (waiting claims at_check b) =
      inr (mesh-IsNearer claims at_check b (unfold mesh_left in omega arith))
  advances mesh_side (waiting claims (at_patch body) b) =
      inr (mesh-IsNearer claims (at_patch body) b (unfold mesh_left in omega arith))
  advances mesh_side (waiting claims (at_delete e) b) =
      inr (mesh-IsNearer claims (at_delete e) b (unfold mesh_left in omega arith))
  advances mesh_side (waiting claims (mesh_returned o) b) = unfold mesh_step_at in inl refl
  advances mesh_side (reporting calls response) = inl refl
  advances mesh_side (answered response) = inl refl
  advances label_side arriving = inl refl
  advances label_side (waiting claims a at_list) =
      inr (IsNearer-listed claims a (IsListed-step d claims.sub_id.uri st.pods))
  advances label_side (waiting claims a (at_pods ns sa [] n errs)) =
      unfold label_step_at in inr (inr (refl, omega arith))
  advances label_side (waiting claims a (at_pods ns sa (pod ∷ pods) n errs)) =
      unfold label_step_at in inr (inr (refl, omega arith))
  advances label_side (waiting claims a (label_returned n errs)) = unfold label_step_at in inl refl
  advances label_side (reporting calls response) = inl refl
  advances label_side (answered response) = inl refl

  pub needed-IsNearer :
      (x : RequestAt)
      → ((response : Response) × (x ≡ answered response))
        ⊎ IsNearer (advance d p r (needed x) st ms x).at x
  unfolding advance wait
  needed-IsNearer arriving = inr (IsNearer-begun (begun d r))
  needed-IsNearer (waiting claims at_check b) =
      inr (mesh-IsNearer claims at_check b (unfold mesh_left in omega arith))
  needed-IsNearer (waiting claims (at_patch body) b) =
      inr (mesh-IsNearer claims (at_patch body) b (unfold mesh_left in omega arith))
  needed-IsNearer (waiting claims (at_delete e) b) =
      inr (mesh-IsNearer claims (at_delete e) b (unfold mesh_left in omega arith))
  needed-IsNearer (waiting claims (mesh_returned o) at_list) =
      inr (IsNearer-listed claims (mesh_returned o) (IsListed-step d claims.sub_id.uri st.pods))
  needed-IsNearer (waiting claims (mesh_returned o) (at_pods ns sa [] n errs)) =
      unfold label_step_at in inr (inr (refl, omega arith))
  needed-IsNearer (waiting claims (mesh_returned o) (at_pods ns sa (pod ∷ pods) n errs)) =
      unfold label_step_at in inr (inr (refl, omega arith))
  needed-IsNearer (waiting claims (mesh_returned o) (label_returned n errs)) =
      inr (inl (omega arith))
  needed-IsNearer (reporting [] response) = inr (inr (refl, omega arith))
  needed-IsNearer (reporting (m ∷ calls) response) = inr (inr (refl, omega arith))
  needed-IsNearer (answered response) = inl (response, refl)
