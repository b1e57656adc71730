-- ===== src/Common/Outcome.antt =====
-- What the Reconcile functions return, and their early returns.
use accelerator_config_manag.Prelude.{String, ◌<>◌, Bool, true, false, none, some, if◌then◌else◌}
use accelerator_config_manag.Prelude.Eff.{Eff, pure}
use accelerator_config_manag.Api.Meta.{
  NamespacedName, name_string, Result, no_result, Error, GoError, wrap,
}

-- `(ctrl.Result, error)`
abbrev pub Outcome : Type 0
Outcome = Result × Error

-- `return reconcile.Result{}, err`
abbrev pub fail : GoError → Outcome
fail e = (no_result, some e)

-- `return reconcile.Result{}, nil`
abbrev pub finish : Outcome
finish = (no_result, none)

module _ {S : Type 0} where
  -- `if err != nil { return reconcile.Result{}, err }`, and the rest.
  abbrev pub unless_error : Error → Eff S Outcome → Eff S Outcome
  unless_error none rest = rest
  unless_error (some e) rest = pure (fail e)

  -- The same, with the error wrapped.
  abbrev pub unless_wrapped : String → Error → Eff S Outcome → Eff S Outcome
  unless_wrapped text none rest = rest
  unless_wrapped text (some e) rest = pure (fail (wrap text e))

-- The end of a reconciliation: an error and a requeue where a loop over nodes has failed.
abbrev pub set_up : NamespacedName → Bool → Outcome
set_up req requeue =
    if requeue
    then (
      record { requeue = true; requeue_after = none },
      some (record {
        is_not_found = false;
        message = "failed to setup nodes by " <> name_string req;
      }),
    )
    else finish

-- The end of a reconciliation that has written the status, by the error of that.
abbrev pub write_outcome : NamespacedName → Bool → Error → Outcome
write_outcome req requeue none = set_up req requeue
write_outcome req requeue (some e) = fail (wrap "failed to update status, " e)
