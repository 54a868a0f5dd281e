-- ===== src/KeyExchangeWidget/Reach.antt =====
-- What holds of the tab after any events.
use text.Mathlib.Text.{◌==◌ as str_eq}
use cscrypto.Base.{
  ℕ, ◌≡◌, ◌<◌, ◌≤◌, inl, inr, refl, sym, ap, subst, ◌∙◌, Bool, Bool-cases, true, false, not, ◌&&◌,
  Option, none, some, List, [], ◌∷◌, arith, ltb, if◌then◌else◌, if_true, if_false, length,
  length-append,
}
use cscrypto.Base58.{Base58}
use cscrypto.KeyListModel.{KeyListModel, get_key_pair}
use cscrypto.SignWidget.Rows.{IsRow-add_key_pair, get_elem?-lt}
use cscrypto.StorageWidget.Rows.{PublicKeyRow}
use cscrypto.KeyExchangeWidget.{
  KeyExchangeWidget, inspect_key_id_text, set_own_key, host_name_enter_dialog, set_host_name,
  send_key_exchange_request, enable_incoming_connections, network_message_handler, new_keys_handler,
}
use cscrypto.KeyExchangeWidget.Events.{
  Event, key_added, row_clicked, id_edited, request_clicked, server_clicked, host_typed,
  send_clicked, dialog_closed, network_message, new_keys, initial, step, run_events,
}
use cscrypto.KeyExchangeWidget.Ready.{
  AllSent, AllOf, IsConsistent, ready_of, AllSent-add_key_pair, AllOf-add_key_pair, AllSent-append,
  AllOf-append, get_key_pair-IsOf,
}

initial-IsConsistent : (keys : KeyListModel) → IsConsistent (initial keys)
unfolding initial
initial-IsConsistent keys = record {
  request_needs_keys = refl;
  own_selected = refl;
  own_is_row = λ e. cc;
  dialog_needs_own = λ e. cc;
  one_server = refl;
  all_sent = tt;
  all_served = tt;
}

inspect_key_id_text-IsConsistent :
    (found : Option (List PublicKeyRow)) (w : KeyExchangeWidget)
    → IsConsistent w
    → IsConsistent (inspect_key_id_text found w)
unfolding inspect_key_id_text
inspect_key_id_text-IsConsistent none w h =
    ready_of (ground arith) h.own_selected h.own_is_row h.dialog_needs_own h.one_server h.all_sent
      h.all_served
inspect_key_id_text-IsConsistent (some []) w h =
    ready_of (ground arith) h.own_selected h.own_is_row h.dialog_needs_own h.one_server h.all_sent
      h.all_served
inspect_key_id_text-IsConsistent (some (row ∷ rows)) w h =
    ready_of (ground (arith, h.request_needs_keys)) h.own_selected h.own_is_row h.dialog_needs_own
      h.one_server h.all_sent h.all_served

set_own_key-IsConsistent :
    (b : Base58) (w : KeyExchangeWidget) (row : ℕ)
    → row < length w.own_keys
    → IsConsistent w
    → IsConsistent (set_own_key b (record w { current_index = some row }))
unfolding set_own_key
set_own_key-IsConsistent b w row lt h = record {
  request_needs_keys = ground (arith, h.request_needs_keys);
  own_selected = refl;
  own_is_row = λ e. let (pair, there) = get_elem?-lt w.own_keys row lt in (row, refl, pair, there);
  dialog_needs_own = λ e. refl;
  one_server = ground (arith, h.one_server);
  all_sent = h.all_sent;
  all_served = h.all_served;
}

-- Once the dialog is closed.
abbrev IsClosed : KeyExchangeWidget → Type 0
IsClosed x = IsConsistent (record x { dialog_open = false })

send_key_exchange_request-IsConsistent :
    (garbage : List ℕ) (w : KeyExchangeWidget)
    → w.dialog_open ≡ true
    → IsConsistent w
    → IsConsistent (record (send_key_exchange_request garbage w) { dialog_open = false })
unfolding send_key_exchange_request
send_key_exchange_request-IsConsistent garbage w opened h =
    elim (Bool-cases (str_eq w.host_name "")) [
      | inl empty ↦ subst IsClosed (sym (if_true (str_eq w.host_name "") _ _ empty)) (
          ready_of h.request_needs_keys h.own_selected h.own_is_row (λ e. cc) h.one_server
            h.all_sent h.all_served)
      | inr named ↦ subst IsClosed (sym (if_false (str_eq w.host_name "") _ _ named)) (
          ready_of h.request_needs_keys h.own_selected h.own_is_row (λ e. cc) h.one_server
            (AllSent-append w.own_keys w.host_name _ w.requests h.all_sent named (
              get_key_pair-IsOf garbage w.own_keys w.current_index
                (h.own_is_row (h.dialog_needs_own opened))))
            h.all_served)
    ]

enable_incoming_connections-IsConsistent :
    (garbage : List ℕ) (w : KeyExchangeWidget)
    → w.server_enabled ≡ true
    → IsConsistent w
    → IsConsistent (enable_incoming_connections garbage w)
unfolding enable_incoming_connections
enable_incoming_connections-IsConsistent garbage w on h =
    let none_left : w.can_enable ≡ false = ground (arith, on, h.one_server) in
    let selected : w.own_key_ok ≡ true = h.own_selected ∙ ap not none_left in
    ready_of h.request_needs_keys h.own_selected h.own_is_row h.dialog_needs_own
      (ground (
        arith,
        on,
        none_left,
        h.one_server,
        length-append w.servers (get_key_pair garbage w.own_keys w.current_index ∷ []),
      ))
      h.all_sent
      (AllOf-append w.own_keys _ w.servers h.all_served
        (get_key_pair-IsOf garbage w.own_keys w.current_index (h.own_is_row selected)))

module _ (b : Base58) (garbage : List ℕ) where
  -- An event that does nothing while a control is disabled.
  if_IsConsistent :
      (on : Bool) (w w' : KeyExchangeWidget)
      → IsConsistent w
      → (on ≡ true → IsConsistent w')
      → IsConsistent (if on then w' else w)
  if_IsConsistent true w w' h does = does refl
  if_IsConsistent false w w' h does = h

  step-IsConsistent :
      (e : Event) (w : KeyExchangeWidget) → IsConsistent w → IsConsistent (step b garbage e w)
  unfolding step host_name_enter_dialog set_host_name network_message_handler new_keys_handler
  step-IsConsistent (key_added pk sk) w h =
      ready_of h.request_needs_keys h.own_selected
        (λ e. IsRow-add_key_pair w.own_keys w.current_index _ (h.own_is_row e)) h.dialog_needs_own
        h.one_server (AllSent-add_key_pair w.own_keys _ w.requests h.all_sent)
        (AllOf-add_key_pair w.own_keys _ w.servers h.all_served)
  step-IsConsistent (row_clicked row) w h =
      if_IsConsistent (not w.dialog_open && ltb row (length w.own_keys)) w _ h
        (λ on. set_own_key-IsConsistent b w row (ground (arith, on)) h)
  step-IsConsistent (id_edited found) w h = elim (Bool-cases w.dialog_open) [
    | inl opened ↦ subst IsConsistent (sym (if_true w.dialog_open _ _ opened)) h
    | inr shut ↦
        subst IsConsistent (sym (if_false w.dialog_open _ _ shut))
          (inspect_key_id_text-IsConsistent found w h)
  ]
  step-IsConsistent request_clicked w h =
      if_IsConsistent (not w.dialog_open && w.request_enabled) w _ h (λ on.
        ready_of h.request_needs_keys h.own_selected h.own_is_row
          (λ e. ground (arith, on, h.request_needs_keys)) h.one_server h.all_sent h.all_served)
  step-IsConsistent server_clicked w h =
      if_IsConsistent (not w.dialog_open && w.server_enabled) w _ h
        (λ on. enable_incoming_connections-IsConsistent garbage w (ground (arith, on)) h)
  step-IsConsistent (host_typed text) w h =
      if_IsConsistent w.dialog_open w (set_host_name text w) h (λ opened. h)
  step-IsConsistent send_clicked w h =
      if_IsConsistent w.dialog_open w _ h
        (λ opened. send_key_exchange_request-IsConsistent garbage w opened h)
  step-IsConsistent dialog_closed w h =
      ready_of h.request_needs_keys h.own_selected h.own_is_row (λ e. cc) h.one_server h.all_sent
        h.all_served
  step-IsConsistent (network_message text) w h = h
  step-IsConsistent (new_keys inserted inserted' send_sk receive_sk) w h = h

  run_events-IsConsistent :
      (es : List Event) (w : KeyExchangeWidget)
      → IsConsistent w
      → IsConsistent (run_events b garbage es w)
  unfolding run_events
  run_events-IsConsistent [] w h = h
  run_events-IsConsistent (e ∷ es) w h =
      run_events-IsConsistent es (step b garbage e w) (step-IsConsistent e w h)

  -- A new tab, and whatever a user, the other tabs and the network do with it, in any order: the
  -- button for a request is enabled exactly when an own key and an imported key are selected, every
  -- request so far went to a host with a name and with a pair of keys of the list, never with the
  -- empty pair, and so did every server, of which there is one at most.
  pub run_events-AllSent :
      (keys : KeyListModel) (es : List Event)
      → let w = run_events b garbage es (initial keys) in
        (w.request_enabled ≡ (w.own_key_ok && w.imported_key_ok))
        × AllSent w.own_keys w.requests
        × AllOf w.own_keys w.servers
        × (length w.servers ≤ 1)
  run_events-AllSent keys es =
      let h = run_events-IsConsistent es (initial keys) (initial-IsConsistent keys) in
      (h.request_needs_keys, h.all_sent, h.all_served, omega (arith, h.one_server))
