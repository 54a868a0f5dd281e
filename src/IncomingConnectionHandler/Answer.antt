-- ===== src/IncomingConnectionHandler/Answer.antt =====
-- What the handler of a connection answers, in whatever pieces the request arrives
-- (qt/src/incomingconnectionhandler.cpp).
use Prim.Native.String.{String}
use mathlib.Core.List.{append_assoc, append-nil}
use cscrypto.Base.{
  ℕ, ◌+◌, ◌≡◌, ◌≤◌, ◌<◌, ◌∙◌, sym, ap, refl, subst, Bool, true, false, none, some, List, [], ◌∷◌,
  ◌++◌, ◌==◌, lt-cases, lt→ltb, le→not_ltb, flatten, inl, inr, if◌then◌else◌, length, length-append,
  nil-length, get_or, drop, arith, Outcome, ok, fault, ◌>>=◌,
}
use cscrypto.Sodium.Memory.{SodiumMemory}
use cscrypto.Sodium.Sign.{SodiumSign}
use cscrypto.Sodium.Kx.{SodiumKx}
use cscrypto.RequestMaster.{
  RequestType, RequestMaster, Database, Validated, Signals, request_size, validate, form,
}
use cscrypto.IncomingConnectionHandler.{
  lacks, fits, wait_for, Handled, check_request, checked, read_rest, read_request, send_reply, run,
  fail_reading, socket_error, invalid_request,
}

-- Enough bytes end the wait, and none is lost.
pub wait_for_lem :
    (n : ℕ) (available : List ℕ) (pieces : List (List ℕ)) (whole : List ℕ)
    → available ++ flatten pieces ≡ whole
    → n ≤ length whole
    → (got : List ℕ) × (later : List (List ℕ)) × (wait_for (some n) available pieces
        ≡ some (got, later))
      × (n ≤ length got)
      × (got ++ flatten later ≡ whole)
unfolding wait_for lacks flatten
wait_for_lem n available [] whole e h =
    let same : available ≡ whole = sym (append-nil available) ∙ e in
    let size : n ≤ length available = rw same h in
    (available, [], rw (le→not_ltb (length available) n size) refl, size, e)
wait_for_lem n available (piece ∷ pieces) whole e h = elim (lt-cases (length available) n) [
  | inl short ↦
      let (got, later, found, size, same) =
        wait_for_lem n (available ++ piece) pieces whole
          (append_assoc available piece (flatten pieces) ∙ e) h in
      (got, later, rw (lt→ltb (length available) n short) found, size, same)
  | inr enough ↦
      (available, piece ∷ pieces, rw (le→not_ltb (length available) n enough) refl, enough, e)
]

-- Too few bytes end it with a time-out.
pub wait_for-short :
    (n : ℕ) (available : List ℕ) (pieces : List (List ℕ))
    → length (available ++ flatten pieces) < n
    → wait_for (some n) available pieces ≡ none
unfolding wait_for lacks flatten
wait_for-short n available [] h =
    rw (lt→ltb (length available) n (omega (arith, length-append available []))) refl
wait_for-short n available (piece ∷ pieces) h =
    rw
      (lt→ltb (length available) n
        (omega (arith, length-append available (piece ++ flatten pieces))))
      (wait_for-short n (available ++ piece) pieces
        (subst (λ xs. length xs < n) (sym (append_assoc available piece (flatten pieces))) h))

-- A wait for exactly what is still to come leaves all of it in the socket.
wait_for-all :
    (n : ℕ) (available : List ℕ) (pieces : List (List ℕ)) (whole : List ℕ)
    → available ++ flatten pieces ≡ whole
    → length whole ≡ n
    → (later : List (List ℕ)) × (wait_for (some n) available pieces ≡ some (whole, later))
wait_for-all n available pieces whole e l =
    let (got, later, found, size, same) = wait_for_lem n available pieces whole e (omega arith) in
    let total : length got + length (flatten later) ≡ n =
      sym (length-append got (flatten later)) ∙ ap length same ∙ l in
    let all : got ≡ whole =
      sym (append-nil got)
      ∙ ap (λ xs. got ++ xs) (sym (nil-length (flatten later) (omega arith)))
      ∙ same in
    (later, found ∙ ap (λ xs. some (xs, later)) all)

module _ (encode : List ℕ → String) (m : SodiumMemory) (s : SodiumSign) (k : SodiumKx) where
  -- The answer to a request that was validated: a reply exactly when it is valid.
  unfoldable pub answer_validated : Validated → Outcome Handled
  answer_validated r =
      if r.valid
      then (do
        reply ← form encode m s k 1 r.master
        ok (record {
          request_master = reply.master;
          written = reply.request;
          errors = [];
          emitted = r.emitted ++ reply.emitted;
        }))
      else ok (record {
        request_master = r.master;
        written = [];
        errors = invalid_request ∷ [];
        emitted = r.emitted;
      })

  send_reply-checked : (r : Validated) → send_reply encode m s k (checked r) ≡ answer_validated r
  unfolding send_reply checked answer_validated
  send_reply-checked r = go r.valid r.master r.emitted
    where
      go :
          (v : Bool) (w : RequestMaster) (emitted : Signals)
          → send_reply encode m s k (checked (record { valid = v; master = w; emitted = emitted }))
            ≡ answer_validated (record { valid = v; master = w; emitted = emitted })
      go true w emitted = refl
      go false w emitted = refl

  checked-answer :
      (o : Outcome Validated)
      → ((o >>= (λ r. ok (checked r))) >>= send_reply encode m s k) ≡ (o >>= answer_validated)
  checked-answer (ok r) = send_reply-checked r
  checked-answer fault = refl

  unfoldable pub answer : Database → RequestType → List ℕ → RequestMaster → Outcome Handled
  answer db type body w = validate encode m s k db type body w >>= answer_validated

  module _ (db : Database) (type n : ℕ) (t : request_size type ≡ some n) where
    check_request-answer :
        (body : List ℕ) (w : RequestMaster)
        → length body ≡ n
        → (check_request encode m s k db type body w >>= send_reply encode m s k)
          ≡ answer db type body w
    unfolding check_request fits answer
    check_request-answer body w l =
        rw (t, same_size) (checked-answer (validate encode m s k db type body w))
      where
        same_size : (n == length body) ≡ true
        same_size = ground (arith, l)

    read_rest-answer :
        (rest : List ℕ) (later : List (List ℕ)) (body : List ℕ) (w : RequestMaster)
        → rest ++ flatten later ≡ body
        → length body ≡ n
        → (read_rest encode m s k db (type ∷ rest) later w >>= send_reply encode m s k)
          ≡ answer db type body w
    unfolding read_rest
    read_rest-answer rest later body w e l =
        let (later', found) = wait_for-all n rest later body e l in
        rw (read_rest, t, found) (check_request-answer body w l)

    -- In whatever pieces a request arrives: if they are together a type that has a size and a body
    -- of that size, the handler answers that body, once.
    pub run_lem :
        (pieces : List (List ℕ)) (body : List ℕ) (w : RequestMaster)
        → length body ≡ n
        → flatten pieces ≡ type ∷ body
        → run encode m s k true db pieces w ≡ answer db type body w
    unfolding run read_request
    run_lem pieces body w l e =
        let (got, later, found, size, same) =
          wait_for_lem 1 [] pieces (type ∷ body) e (omega arith) in
        rw (run, read_request, found) (go got later size same)
      where
        go :
            (got : List ℕ) (later : List (List ℕ))
            → 1 ≤ length got
            → got ++ flatten later ≡ type ∷ body
            → (read_rest encode m s k db got later w >>= send_reply encode m s k)
              ≡ answer db type body w
        go [] later size same = absurd (omega arith)
        go (x ∷ rest) later size same =
            subst
              (λ y.
                (read_rest encode m s k db (y ∷ rest) later w >>= send_reply encode m s k)
                ≡ answer db type body w)
              (sym (ap (λ xs. get_or xs 0 0) same))
              (read_rest-answer rest later body w (ap (drop 1) same) l)

    read_rest-short :
        (rest : List ℕ) (later : List (List ℕ)) (w : RequestMaster)
        → length (rest ++ flatten later) < n
        → (read_rest encode m s k db (type ∷ rest) later w >>= send_reply encode m s k)
          ≡ ok (record {
            request_master = w;
            written = [];
            errors = socket_error ∷ [];
            emitted = [];
          })
    unfolding read_rest fail_reading send_reply
    read_rest-short rest later w h = rw (read_rest, t, wait_for-short n rest later h) refl

    -- A request that stops before its body is whole ends with the error of the socket: nothing is
    -- written, nothing is emitted, and the master is as it was.
    pub run-short :
        (pieces : List (List ℕ)) (part : List ℕ) (w : RequestMaster)
        → length part < n
        → flatten pieces ≡ type ∷ part
        → run encode m s k true db pieces w
          ≡ ok (record {
            request_master = w;
            written = [];
            errors = socket_error ∷ [];
            emitted = [];
          })
    unfolding run read_request
    run-short pieces part w l e =
        let (got, later, found, size, same) =
          wait_for_lem 1 [] pieces (type ∷ part) e (omega arith) in
        rw (run, read_request, found) (go got later size same)
      where
        go :
            (got : List ℕ) (later : List (List ℕ))
            → 1 ≤ length got
            → got ++ flatten later ≡ type ∷ part
            → (read_rest encode m s k db got later w >>= send_reply encode m s k)
              ≡ ok (record {
                request_master = w;
                written = [];
                errors = socket_error ∷ [];
                emitted = [];
              })
        go [] later size same = absurd (omega arith)
        go (x ∷ rest) later size same =
            subst
              (λ y.
                (read_rest encode m s k db (y ∷ rest) later w >>= send_reply encode m s k)
                ≡ ok (record {
                  request_master = w;
                  written = [];
                  errors = socket_error ∷ [];
                  emitted = [];
                }))
              (sym (ap (λ xs. get_or xs 0 0) same))
              (read_rest-short rest later w
                (subst (λ xs. length xs < n) (sym (ap (drop 1) same)) l))
