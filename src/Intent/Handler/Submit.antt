-- ===== src/Intent/Handler/Submit.antt =====
-- `SubmitIntent`: what it stores it has verified, and what it stores can be read back.
use aien.Prelude.{◌≡◌, refl, ◌≢◌, ◌⊎◌, inl, inr, true, false, String, ==_iff, arith}
use aien.Prelude.Sql.{Result, ok, err, Result-cases}
use aien.Grpc.{Status}
use aien.Crypto.{Primitives, get_sign_bytes, verify}
use aien.Intent.Types.{Intent, SubmitIntentRequest, pending, Time}
use aien.Intent.Names.{type_string}
use aien.Intent.Memory.{MemoryStore, Tokens, new_intent, create}
use aien.Intent.Memory.Laws.{get-create}
use aien.Intent.Handler.{
  Store, Message, check_request, submit_intent, get_intent, memory_store, is_unspecified, submitted,
}

-- The request names a type and a submitter, and carries a signature of its type, submitter and
-- payload that verifies under its public key.
pub record IsSigned (prim : Primitives) (req : SubmitIntentRequest) : Type 0 where
  pub typed : is_unspecified req.type_of ≡ false
  pub submitter : req.submitter_id ≢ ""
  pub keyed : req.submitter_public_key ≢ ""
  pub signed : req.signature ≢ ""
  pub verified :
      verify prim
        (get_sign_bytes (type_string req.type_of) req.submitter_id req.payload)
        req.signature
        req.submitter_public_key
      ≡ ok true

pub check_request-IsSigned :
    {E : Type 0} (prim : Primitives) (req : SubmitIntentRequest)
    → check_request {E = E} prim req ≡ ok tt
    → IsSigned prim req
unfolding check_request
check_request-IsSigned prim req h = record {
  typed = ground arith;
  submitter = λ (e : req.submitter_id ≡ ""). ground (arith, ==_iff req.submitter_id "");
  keyed = λ (e : req.submitter_public_key ≡ ""). ground (arith, ==_iff req.submitter_public_key "");
  signed = λ (e : req.signature ≡ ""). ground (arith, ==_iff req.signature "");
  verified = ground arith;
}

pub IsSigned-check_request :
    {E : Type 0} (prim : Primitives) (req : SubmitIntentRequest)
    → IsSigned prim req
    → check_request {E = E} prim req ≡ ok tt
unfolding check_request
IsSigned-check_request prim req h = ground (
  arith,
  h.typed,
  h.submitter,
  h.keyed,
  h.signed,
  h.verified,
  ==_iff req.submitter_id "",
  ==_iff req.submitter_public_key "",
  ==_iff req.signature "",
)

submitted_state : {S E : Type 0} (r : S × Result E Intent) → (submitted r).0 ≡ r.0
submitted_state (s, ok intent) = refl
submitted_state (s, err e) = refl

-- A submission either is refused with an error and leaves the store as it was, or it carries a valid
-- signature, and the store's own `create` decides the state.
pub submit_intent-cases :
    {S E : Type 0} (prim : Primitives) (store : Store S E) (req : SubmitIntentRequest) (s : S)
    → let r = submit_intent prim store req s in
      ((r.0 ≡ s) × ((st : Status (Message E)) × (r.1 ≡ err st)))
      ⊎ (IsSigned prim req × (r.0 ≡ (store.create req s).0))
unfolding submit_intent
submit_intent-cases {E = E} prim store req s =
    elim (Result-cases (check_request {E = E} prim req)) [
      | inl (st, e) ↦ inl (rw e refl, (st, rw e refl))
      | inr (u, e) ↦
          inr (check_request-IsSigned prim req e, rw e (submitted_state (store.create req s)))
    ]

-- A signed request is stored in memory as a pending intent, and `GetIntent` on the new id, which
-- is not empty, returns it.
pub submit_then_get :
    (prim : Primitives) (tokens : Tokens) (id : String) (now : Time) (req : SubmitIntentRequest)
    (m : MemoryStore)
    → IsSigned prim req
    → id ≢ ""
    → let store = memory_store tokens id now in
      let r = submit_intent prim store req m in
      (r.1 ≡ ok (record { intent_id = id; status = pending; created_at = now }))
      × (get_intent store id r.0 ≡ ok (new_intent id now req))
unfolding submit_intent get_intent memory_store create new_intent
submit_then_get prim tokens id now req m signed named =
    rw (IsSigned-check_request prim req signed)
      (refl, ground (arith, get-create id id now req m, ==_iff id id, ==_iff id ""))
