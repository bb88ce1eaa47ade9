-- ===== src/Actuator/Server/Alone.antt =====
-- cmd/actuator: a request that is handled while no other goroutine runs, against the handler as a
-- function.
use ebpf_ssf_broker.Base.{
  ℕ, ◌+◌, ◌≤◌, ◌≡◌, refl, ap, ◌∙◌, false, List, [], ◌∷◌, ◌==◌, ==_iff, length,
}
use ebpf_ssf_broker.Actuator.Server.Local.{course_of, local_run}
use ebpf_ssf_broker.Actuator.Events.{events_handler, Deps}
use ebpf_ssf_broker.Actuator.Goroutines.{Turn, at_list}
use ebpf_ssf_broker.Actuator.Goroutines.LabelSide.{label_left}
use ebpf_ssf_broker.Actuator.Goroutines.Join.{turns_of_mesh, turns_of_label}
use ebpf_ssf_broker.Actuator.Registry.{serve_input, Client}
use ebpf_ssf_broker.Actuator.Server.Fits.{subject_in}
use ebpf_ssf_broker.Actuator.Server.{
  slice, arriving, answered, idle, advance, serve_slice, serve_slices, Part, Slice, Incoming,
  Stepped, Serving,
}
use ebpf_ssf_broker.Actuator.Server.Course.{course-Ends}
use ebpf_ssf_broker.Actuator.History.{event}

module _ (d : Deps) (p : Client) (incoming : ℕ → Incoming) (i : ℕ) where
  -- The slices that give the goroutines of the request these turns.
  abbrev pub slices_of : List Part → List Slice
  slices_of [] = []
  slices_of (part ∷ parts) = slice i part ∷ slices_of parts

  abbrev local : Serving d p → Stepped d p
  local s = idle d p s.state s.metrics (s.at i)

  local-slice :
      (part : Part) (s : Serving d p)
      → local (serve_slice d p incoming (slice i part) s)
        ≡ advance d p (incoming i) part s.state s.metrics (s.at i)
  unfolding serve_slice
  local-slice part s = rw ((==_iff i i).1 refl) refl

  local-slices :
      (parts : List Part) (s : Serving d p)
      → local (serve_slices d p incoming (slices_of parts) s)
        ≡ local_run d p (incoming i) parts (local s)
  unfolding serve_slices
  local-slices [] s = refl
  local-slices (part ∷ parts) s =
      local-slices parts (serve_slice d p incoming (slice i part) s)
      ∙ ap (local_run d p (incoming i) parts) (local-slice part s)

  others_stay :
      (parts : List Part) (s : Serving d p) (j : ℕ)
      → j == i ≡ false
      → (serve_slices d p incoming (slices_of parts) s).at j ≡ s.at j
  unfolding serve_slices serve_slice
  others_stay [] s j h = refl
  others_stay (part ∷ parts) s j h =
      others_stay parts (serve_slice d p incoming (slice i part) s) j h ∙ rw h refl

  -- While no other goroutine runs, a request is answered as events_handler answers it, and leaves
  -- the state and the metrics that it leaves, in whatever order the two goroutines of the event take
  -- their turns, if each gets enough of them, and the handler one for each metric and two more. The
  -- other requests, at whatever points they stand, stay there.
  pub alone_serves :
      (turns : List Turn) (n : ℕ) (s : Serving d p)
      → s.at i ≡ arriving
      → 3 ≤ turns_of_mesh turns
      → label_left d (subject_in d (incoming i)) at_list s.state.pods ≤ turns_of_label turns
      → length (events_handler d (incoming i).now (incoming i).request s.state).metrics + 2 ≤ n
      → let s' = serve_slices d p incoming (slices_of (course_of turns n)) s in
        ((record { state = s'.state; metrics = s'.metrics })
          ≡ serve_input d p
              (record { state = s.state; metrics = s.metrics })
              (event (incoming i).now (incoming i).request))
        × (s'.at i
            ≡ answered (events_handler d (incoming i).now (incoming i).request s.state).response)
        × ((j : ℕ) → j == i ≡ false → s'.at j ≡ s.at j)
  unfolding serve_input
  alone_serves turns n s new mesh_turns label_turns h =
      let ends =
        local-slices (course_of turns n) s
        ∙ ap (λ a. local_run d p (incoming i) (course_of turns n) (idle d p s.state s.metrics a))
            new
        ∙ course-Ends d p (incoming i) s.state s.metrics turns n mesh_turns label_turns h in
      (
        ap (λ (t : Stepped d p). record { state = t.state; metrics = t.metrics }) ends,
        ap (λ (t : Stepped d p). t.at) ends,
        others_stay (course_of turns n) s,
      )
