-- ===== src/Client/Arrival.antt =====
-- The reply of a server is read the same way in whatever pieces it arrives (qt/src/client.cpp).
use Prim.Native.String.{String}
use mathlib.Core.List.{append_assoc, append-nil}
use cscrypto.Base.{
  ℕ, suc, ◌+◌, ◌≡◌, ◌<◌, ◌∙◌, sym, ap, refl, subst, false, none, some, List, [], ◌∷◌, ◌++◌, ◌==◌,
  lt-cases, lt→ltb, le→not_ltb, flatten, inl, inr, if◌then◌else◌, length, length-append, nil-length,
  drop, get_or, take_all, drop_all, arith, Outcome, ok, fault, ◌>>=◌,
}
use cscrypto.Sodium.Memory.{SodiumMemory}
use cscrypto.Sodium.Sign.{SodiumSign}
use cscrypto.Sodium.Kx.{SodiumKx}
use cscrypto.RequestMaster.{RequestType, Database, Validated, request_size, validate}
use cscrypto.Client.{Client, read_body, read_type, on_ready_read, arrive}

bind-ok :
    {A : Type 0} {B : Type 0} (o : Outcome A) (f : A → B) (g : B → Outcome B)
    → ((a : A) → g (f a) ≡ ok (f a))
    → ((o >>= (λ a. ok (f a))) >>= g) ≡ (o >>= (λ a. ok (f a)))
bind-ok (ok a) f g h = h a
bind-ok fault f g h = refl

-- The client before the type of the reply, behind it with a part of the body, and at the end.
unfoldable pub waiting : Client → Client
waiting c = record c { server_req_type = 3; available = [] }

unfoldable pub holding : Client → RequestType → List ℕ → Client
holding c type bytes = record c { server_req_type = type; available = bytes }

unfoldable pub after : Client → RequestType → Validated → Client
after c type r = record c {
  server_req_type = type;
  request_master = r.master;
  available = [];
  errors = if r.valid then c.errors else suc c.errors;
  emitted = c.emitted ++ r.emitted;
}

module _ (encode : List ℕ → String) (m : SodiumMemory) (s : SodiumSign) (k : SodiumKx) where
  -- What the client does with a whole body.
  unfoldable pub handle_body : Database → Client → RequestType → List ℕ → Outcome Client
  handle_body db c type bytes = do
    r ← validate encode m s k db type bytes c.request_master
    ok (after c type r)

  module _ (db : Database) (type n : ℕ) (t : request_size type ≡ some n) (ne : (type == 3) ≡ false)
      (pos : 0 < n) where
    on_ready_read-short :
        (c : Client) (bytes : List ℕ)
        → length bytes < n
        → on_ready_read encode m s k db (holding c type bytes) ≡ ok (holding c type bytes)
    unfolding on_ready_read read_body holding
    on_ready_read-short c bytes l = rw (on_ready_read, ne, t, lt→ltb (length bytes) n l) refl

    on_ready_read-whole :
        (c : Client) (bytes : List ℕ)
        → length bytes ≡ n
        → on_ready_read encode m s k db (holding c type bytes) ≡ handle_body db c type bytes
    unfolding on_ready_read read_body holding handle_body after
    on_ready_read-whole c bytes l =
        rw
          (
            on_ready_read,
            ne,
            t,
            le→not_ltb (length bytes) n (omega arith),
            take_all n bytes (omega arith),
            drop_all n bytes (omega arith),
          )
          refl

    on_ready_read-type :
        (c : Client) (bytes : List ℕ)
        → on_ready_read encode m s k db (record (waiting c) { available = type ∷ bytes })
          ≡ on_ready_read encode m s k db (holding c type bytes)
    unfolding on_ready_read read_type holding waiting
    on_ready_read-type c bytes = rw (on_ready_read, ne) refl

    -- Nothing more comes.
    arrive-nothing :
        (c : Client) (pieces : List (List ℕ))
        → flatten pieces ≡ []
        → arrive encode m s k db (holding c type []) pieces ≡ ok (holding c type [])
    unfolding arrive flatten holding
    arrive-nothing c [] f = refl
    arrive-nothing c (piece ∷ pieces) f =
        let total : length piece + length (flatten pieces) ≡ 0 =
          sym (length-append piece (flatten pieces)) ∙ ap length f in
        rw (nil-length piece (omega arith), on_ready_read-short c [] pos)
          (arrive-nothing c pieces (nil-length (flatten pieces) (omega arith)))

    arrive-body :
        (c : Client) (pieces : List (List ℕ)) (bytes body : List ℕ)
        → length body ≡ n
        → bytes ++ flatten pieces ≡ body
        → length bytes < n
        → arrive encode m s k db (holding c type bytes) pieces ≡ handle_body db c type body
    unfolding arrive flatten holding handle_body after
    arrive-body c [] bytes body l e h =
        absurd (omega (arith, ap length e, ap length (append-nil bytes)))
    arrive-body c (piece ∷ pieces) bytes body l e h =
        let joined : (bytes ++ piece) ++ flatten pieces ≡ body =
          append_assoc bytes piece (flatten pieces) ∙ e in
        let total : length (bytes ++ piece) + length (flatten pieces) ≡ n =
          sym (length-append (bytes ++ piece) (flatten pieces)) ∙ ap length joined ∙ l in
        elim (lt-cases (length (bytes ++ piece)) n) [
          | inl short ↦
              rw (on_ready_read-short c (bytes ++ piece) short)
                (arrive-body c pieces (bytes ++ piece) body l joined short)
          | inr full ↦
              let nothing : flatten pieces ≡ [] = nil-length (flatten pieces) (omega arith) in
              let whole : bytes ++ piece ≡ body =
                sym (append-nil (bytes ++ piece))
                ∙ ap (λ xs. (bytes ++ piece) ++ xs) (sym nothing)
                ∙ joined in
              rw (on_ready_read-whole c (bytes ++ piece) (omega arith), whole)
                (bind-ok (validate encode m s k db type body c.request_master) (after c type)
                  (λ c'. arrive encode m s k db c' pieces)
                  (λ r. arrive-nothing (after c type r) pieces nothing))
        ]

    arrive-type :
        (c : Client) (piece : List ℕ) (pieces : List (List ℕ))
        → arrive encode m s k db (waiting c) ((type ∷ piece) ∷ pieces)
          ≡ arrive encode m s k db (holding c type []) (piece ∷ pieces)
    unfolding arrive holding waiting
    arrive-type c piece pieces =
        ap (λ o. o >>= (λ c'. arrive encode m s k db c' pieces)) (on_ready_read-type c piece)

    -- The client handles a reply in the same way in whatever pieces it arrives: if the pieces
    -- together are a type that has a size and a body of that size, it validates that body once,
    -- keeps nothing of it, and reports an error exactly when it is not valid.
    pub arrive_lem :
        (c : Client) (pieces : List (List ℕ)) (body : List ℕ)
        → length body ≡ n
        → flatten pieces ≡ type ∷ body
        → arrive encode m s k db (waiting c) pieces ≡ handle_body db c type body
    unfolding arrive flatten holding waiting on_ready_read read_type
    arrive_lem c [] body l e = ground (arith, e)
    arrive_lem c ([] ∷ pieces) body l e = arrive_lem c pieces body l e
    arrive_lem c ((x ∷ piece) ∷ pieces) body l e =
        let head : x ≡ type = ap (λ xs. get_or xs 0 0) e in
        let tail : piece ++ flatten pieces ≡ body = ap (drop 1) e in
        subst
          (λ y.
            arrive encode m s k db (waiting c) ((y ∷ piece) ∷ pieces) ≡ handle_body db c type body)
          (sym head)
          (arrive-type c piece pieces ∙ arrive-body c (piece ∷ pieces) [] body l tail pos)

  -- A reply whose type has no size, and is not Unknown, brings the client down: DataTransfer, or any
  -- byte above Unknown, in whatever pieces it arrives and whatever follows it.
  pub arrive-fault :
      (db : Database) (type : ℕ) (c : Client) (pieces : List (List ℕ)) (rest : List ℕ)
      → request_size type ≡ none
      → (type == 3) ≡ false
      → flatten pieces ≡ type ∷ rest
      → arrive encode m s k db (waiting c) pieces ≡ fault
  unfolding arrive flatten waiting on_ready_read read_type read_body
  arrive-fault db type c [] rest t ne e = ground (arith, e)
  arrive-fault db type c ([] ∷ pieces) rest t ne e = arrive-fault db type c pieces rest t ne e
  arrive-fault db type c ((x ∷ piece) ∷ pieces) rest t ne e =
      subst (λ y. arrive encode m s k db (waiting c) ((y ∷ piece) ∷ pieces) ≡ fault)
        (sym (ap (λ xs. get_or xs 0 0) e)) (rw (ne, t) refl)
