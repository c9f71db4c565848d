-- ===== src/Launcher/Execute/Version.antt =====
-- The global `--version` path of a run.
use ipgw_meta.Prelude.{◌≡◌, refl, Bool, true, List, [], ◌∷◌}
use ipgw_meta.Prelude.Results.{Result, ok, err}
use ipgw_meta.Text.{Bytes}
use ipgw_meta.Launcher.Mode.{FailureKind, invalid_arguments, preparse_json}
use ipgw_meta.Launcher.Version.{
  Seen, version_from, nothing_seen, parse_version_request, version_requested,
}
use ipgw_meta.Launcher.Version.Laws.{version_from-err}
use ipgw_meta.Launcher.Execute.{System, Action, wrote_version, wrote_failure, answer, execute}

abbrev pub IsVersionWrite : Action → Type 0
IsVersionWrite (wrote_version _) = Unit {0}
IsVersionWrite (wrote_failure _ kind) = kind ≡ invalid_arguments
IsVersionWrite _ = ⊥

answer_writes :
    (s : System) (json : Bool) (r : Result FailureKind Seen)
    → ((e : FailureKind) → r ≡ err e → e ≡ invalid_arguments)
    → (a : Action) × ((answer s json (elim r [ err e ↦ err e | ok seen ↦ ok seen.json ])).1
        ≡ a ∷ [])
      × IsVersionWrite a
unfolding answer
answer_writes s json (err e) k = (wrote_failure json e, refl, k e refl)
answer_writes s json (ok seen) k = (wrote_version seen.json, refl, tt)

-- `--version` before the terminator consults neither environment nor files and starts nothing:
-- the run writes one answer.
pub execute_version :
    (s : System) (args : List Bytes)
    → version_requested args ≡ true
    → (a : Action) × ((execute s args).1 ≡ a ∷ []) × IsVersionWrite a
unfolding execute parse_version_request
execute_version s args h = rw h (
    answer_writes s (preparse_json args) (version_from args nothing_seen)
      (version_from-err args nothing_seen))
