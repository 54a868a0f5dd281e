-- ===== src/StorageWidget/Events.antt =====
-- What a user does with the tab, event by event.
use Prim.Native.String.{String}
use cscrypto.Base.{◌-◌, Bool, List, [], ◌∷◌, ltb, if◌then◌else◌, Outcome, ok, ◌>>=◌}
use cscrypto.Base58.{Base58}
use cscrypto.StorageWidget.Rows.{Sql}
use cscrypto.StorageWidget.{
  StorageWidget, import_new_key, remove_key, remove_key_from_database, add_key_to_database,
}

pub data Event : Type 0 where
  -- the two buttons of the tab
  import_clicked remove_clicked : Event
  key_typed holder_typed id_typed : String → Event
  trusted_clicked : Bool → Event
  -- the buttons of the dialogs: each closes its dialog
  import_confirmed import_cancelled remove_confirmed remove_cancelled : Event

module _ (sql : Sql) (b : Base58) where
  unfoldable pub step : Event → StorageWidget → Outcome StorageWidget
  step import_clicked w = ok (import_new_key w)
  step remove_clicked w = ok (remove_key w)
  step (key_typed text) w = ok (record w { imported_key = text })
  step (holder_typed text) w = ok (record w { holder_name = text })
  step (id_typed text) w = ok (record w { id_to_remove = text })
  step (trusted_clicked on) w = ok (record w { trusted_key = on })
  step import_confirmed w =
      if ltb 0 w.import_dialogs
      then add_key_to_database sql b (record w { import_dialogs = w.import_dialogs - 1 })
      else ok w
  step import_cancelled w = ok (record w { import_dialogs = w.import_dialogs - 1 })
  step remove_confirmed w =
      if ltb 0 w.remove_dialogs
      then ok (remove_key_from_database sql (record w { remove_dialogs = w.remove_dialogs - 1 }))
      else ok w
  step remove_cancelled w = ok (record w { remove_dialogs = w.remove_dialogs - 1 })

  unfoldable pub run_events : List Event → StorageWidget → Outcome StorageWidget
  run_events [] w = ok w
  run_events (e ∷ es) w = do w' ← step e w; run_events es w'
