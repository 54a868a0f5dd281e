-- ===== src/KeyExchangeWidget/Ready.antt =====
-- What is asked of the state of the tab.
use Prim.Native.String.{String}
use text.Mathlib.Text.{◌==◌ as str_eq}
use cscrypto.Base.{
  ℕ, ◌+◌, ◌≡◌, refl, Bool, true, false, not, ◌&&◌, some, List, [], ◌∷◌, ◌++◌, to_ℕ, length,
  get_elem?,
}
use cscrypto.KeyListModel.{KeyPair, KeyListModel, ModelIndex, add_key_pair, get_key_pair}
use cscrypto.SignWidget.Rows.{IsRow, get_elem?-append}
use cscrypto.KeyExchangeWidget.{KeyExchangeWidget}

-- A pair of keys of the list.
abbrev pub IsOf : KeyListModel → KeyPair → Type 0
IsOf keys pair = (row : ℕ) × (get_elem? keys row ≡ some pair)

-- Every request goes to a host that has a name, with a pair of keys of the list.
abbrev pub AllSent : KeyListModel → List (String × KeyPair) → Type 0
AllSent keys [] = Unit {0}
AllSent keys ((host, pair) ∷ requests) =
    (str_eq host "" ≡ false) × IsOf keys pair × AllSent keys requests

abbrev pub AllOf : KeyListModel → List KeyPair → Type 0
AllOf keys [] = Unit {0}
AllOf keys (pair ∷ servers) = IsOf keys pair × AllOf keys servers

pub AllSent-add_key_pair :
    (keys : KeyListModel) (new : KeyPair) (requests : List (String × KeyPair))
    → AllSent keys requests
    → AllSent (add_key_pair new keys) requests
unfolding add_key_pair
AllSent-add_key_pair keys new [] all = tt
AllSent-add_key_pair keys new ((host, pair) ∷ requests) (named, (row, there), all) = (
  named,
  (row, get_elem?-append keys (new ∷ []) row pair there),
  AllSent-add_key_pair keys new requests all,
)

pub AllOf-add_key_pair :
    (keys : KeyListModel) (new : KeyPair) (servers : List KeyPair)
    → AllOf keys servers
    → AllOf (add_key_pair new keys) servers
unfolding add_key_pair
AllOf-add_key_pair keys new [] all = tt
AllOf-add_key_pair keys new (pair ∷ servers) ((row, there), all) = (
  (row, get_elem?-append keys (new ∷ []) row pair there),
  AllOf-add_key_pair keys new servers all,
)

pub AllSent-append :
    (keys : KeyListModel) (host : String) (pair : KeyPair) (requests : List (String × KeyPair))
    → AllSent keys requests
    → str_eq host "" ≡ false
    → IsOf keys pair
    → AllSent keys (requests ++ ((host, pair) ∷ []))
AllSent-append keys host pair [] all named at = (named, at, tt)
AllSent-append keys host pair (first ∷ requests) (named', at', all) named at =
    (named', at', AllSent-append keys host pair requests all named at)

pub AllOf-append :
    (keys : KeyListModel) (pair : KeyPair) (servers : List KeyPair)
    → AllOf keys servers
    → IsOf keys pair
    → AllOf keys (servers ++ (pair ∷ []))
AllOf-append keys pair [] all at = (at, tt)
AllOf-append keys pair (first ∷ servers) (at', all) at =
    (at', AllOf-append keys pair servers all at)

pub get_key_pair-IsOf :
    (garbage : List ℕ) (keys : KeyListModel) (index : ModelIndex)
    → IsRow keys index
    → IsOf keys (get_key_pair garbage keys index)
unfolding get_key_pair
get_key_pair-IsOf garbage keys index (row, at, pair, there) =
    (row, rw (at, get_key_pair, there) refl)

-- The request button is enabled exactly when both keys are selected, an own key is selected once the
-- server could have been offered, and there is one offer, one server, or neither of the two yet.
pub record IsReady (keys : KeyListModel) (index : ModelIndex)
    (own_ok imported_ok can request server dialog : Bool) (requests : List (String × KeyPair))
    (servers : List KeyPair) : Type 0 where
  pub request_needs_keys : request ≡ (own_ok && imported_ok)
  pub own_selected : own_ok ≡ not can
  pub own_is_row : own_ok ≡ true → IsRow keys index
  pub dialog_needs_own : dialog ≡ true → own_ok ≡ true
  pub one_server : length servers + (to_ℕ server + to_ℕ can) ≡ 1
  pub all_sent : AllSent keys requests
  pub all_served : AllOf keys servers

abbrev pub ready_of :
    {keys : KeyListModel} {index : ModelIndex} {own_ok imported_ok can request server dialog : Bool}
    {requests : List (String × KeyPair)} {servers : List KeyPair}
    → request ≡ (own_ok && imported_ok)
    → own_ok ≡ not can
    → (own_ok ≡ true → IsRow keys index)
    → (dialog ≡ true → own_ok ≡ true)
    → length servers + (to_ℕ server + to_ℕ can) ≡ 1
    → AllSent keys requests
    → AllOf keys servers
    → IsReady keys index own_ok imported_ok can request server dialog requests servers
ready_of r o i d n s t = record {
  request_needs_keys = r;
  own_selected = o;
  own_is_row = i;
  dialog_needs_own = d;
  one_server = n;
  all_sent = s;
  all_served = t;
}

abbrev pub IsConsistent : KeyExchangeWidget → Type 0
IsConsistent w =
    IsReady w.own_keys w.current_index w.own_key_ok w.imported_key_ok w.can_enable w.request_enabled
      w.server_enabled w.dialog_open w.requests w.servers
