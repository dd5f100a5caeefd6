-- ===== src/SshOps/Finished.antt =====
-- A job from its start to its last event (sshops/jobs.go: Start).
use mizu_panel.Prelude.{◌≡◌, refl, String, true, Option, none, some, List, [], ◌∷◌}
use mizu_panel.Prelude.Result.{ok}
use mizu_panel.SshOps.Jobs.{ProgressEvent, Job, set_status, clear_secrets}
use mizu_panel.SshOps.Manager.{emit_all, final_event, final_status, run_operation}
use mizu_panel.SshOps.Streams.{IsStreaming, add-IsStreaming}

is_final : (error : Option String) → (final_event error).is_done ≡ true
is_final none = refl
is_final (some message) = refl

module _ (replace_all : String → String → String → String) where
  emit_all-IsStreaming :
      (j : Job) (emitted : List ProgressEvent)
      → IsStreaming j
      → (k : Job) × (emit_all replace_all j emitted ≡ ok k) × IsStreaming k
  emit_all-IsStreaming j [] v = (j, refl, v)
  emit_all-IsStreaming j (e ∷ es) v =
      let (mid, one, w, _) = add-IsStreaming replace_all j e v in
      let (k, rest, u) = emit_all-IsStreaming mid es w in (k, rw one rest, u)

  -- The goroutine of a job ends without a panic, and the job then has no channels and no secrets.
  pub run_operation-IsStreaming :
      (j : Job) (emitted : List ProgressEvent) (error : Option String)
      → IsStreaming j
      → (l : Job) × (run_operation replace_all j emitted error ≡ ok l)
        × IsStreaming l
        × (l.subscribers ≡ [])
        × (l.secrets ≡ [])
  unfolding run_operation clear_secrets set_status
  run_operation-IsStreaming j emitted error v =
      let (k, emits, w) = emit_all-IsStreaming j emitted v in
      let ended : IsStreaming (record k { status = final_status error }) = record {
        following = w.following;
        ended = w.ended;
      } in
      let (l, last, u, closed) =
        add-IsStreaming replace_all (record k { status = final_status error }) (final_event error)
          ended in
      (
        record l { secrets = [] },
        rw (emits, last) refl,
        record { following = u.following; ended = u.ended },
        closed (is_final error),
        refl,
      )
