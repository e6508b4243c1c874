-- ===== src/Engine/Payment/Paid.antt =====
-- Money that an intent moves: at most once however often it is executed, and always when the intent
-- is COMPLETED.
use aien.Prelude.{
  ◌≡◌, refl, ◌⊎◌, inl, inr, Bool, true, false, List, [], ◌∷◌, Option, none, some, String, ◌==◌,
  ◌||◌, arith, Bool-cases, ◌∙◌, sym,
}
use aien.Prelude.Sql.{Result, ok, err, Server}
use aien.Intent.Types.{
  Intent, IntentType, transfer, compute, query, scheduled_type, type_unspecified, type_number,
  Bytes,
}
use aien.Wallet.Money.{Money}
use aien.Wallet.Tables.{Tables}
use aien.Wallet.Store.{Statement, StoreError}
use aien.Wallet.Store
use aien.Wallet.Store.Transfer.{Moves, transfer-cases, transfer-Moves}
use aien.Wallet.Store.Once.{IsProcessed, logged}
use mathlib.Core.Path.{subst}
use aien.Grpc.{failed_precondition}
use aien.Wallet.Handler.{TransferResponse, reply, transfer_rpc}
use aien.Engine.{
  TransferPayload, run_execution_simulation, ExecutionError, wallet_failed, payload_unparsed,
  simulated, called, transferred,
}
use aien.Engine.Payment.{Bank, bank, executions, exchanged, Exchange, request_of, replied}

module _ (m : Money) where
  open m use {Amount}

  -- The payload's amount has moved between its accounts, under this reference, which was new.
  abbrev pub Paid :
      TransferPayload Amount → (reference_id : String) → Tables Amount → Tables Amount → Type 0
  Paid p reference_id t t' =
      (tx_id : String) × Moves m tx_id p.from_account p.to_account p.amount reference_id t t'

  -- A call of the client and what it tells: nothing has moved and it reports an error, or the payment is
  -- made.
  abbrev pub Called : TransferPayload Amount → String → Tables Amount → Bank m × Bool → Type 0
  Called p reference_id t r = ((r.0.tables ≡ t) × (r.1 ≡ false)) ⊎ Paid p reference_id t r.0.tables

  store-Called :
      (arrives : Bool) (rest : List Exchange) (p : TransferPayload Amount) (reference_id : String)
      (t : Tables Amount) (f : Amount × Amount → TransferResponse Amount)
      (r : Tables Amount × Result (StoreError Amount) (Amount × Amount))
      → (r.0 ≡ t) ⊎ Paid p reference_id t r.0
      → ((x : Amount × Amount) → r.1 ≡ ok x → Paid p reference_id t r.0)
      → Called p reference_id t (replied m arrives rest (r.0, reply m failed_precondition f r.1))
  store-Called arrives rest p reference_id t f (t', ok x) h done = inr (done x refl)
  store-Called arrives rest p reference_id t f (t', err e) (inl same) done = inl (same, refl)
  store-Called arrives rest p reference_id t f (t', err e) (inr paid) done = inr paid

  transfer_rpc-Called :
      (arrives : Bool) (rest : List Exchange) (server : Server Statement) (tx_id : String)
      (p : TransferPayload Amount) (reference_id : String) (t : Tables Amount)
      → Called p reference_id t
          (replied m arrives rest (transfer_rpc m server tx_id (request_of m p reference_id) t))
  unfolding transfer_rpc
  transfer_rpc-Called arrives rest server tx_id p reference_id t =
      elim (Bool-cases (p.from_account == "" || p.to_account == "")) [
        | inl unnamed ↦ rw unnamed (inl (refl, refl))
        | inr named ↦ elim (Bool-cases (m.at_most p.amount m.zero)) [
          | inl none_given ↦ rw (named, none_given) (inl (refl, refl))
          | inr positive ↦ elim (Bool-cases (reference_id == "")) [
            | inl no_reference ↦ rw (named, positive, no_reference) (inl (refl, refl))
            | inr reference ↦
                let r =
                  Store.transfer m server tx_id p.from_account p.to_account p.amount reference_id
                    t in
                let either : (r.0 ≡ t) ⊎ Paid p reference_id t r.0 =
                  elim (transfer-cases m server tx_id p.from_account p.to_account p.amount
                    reference_id t) [ inl same ↦ inl same | inr (ne, mv) ↦ inr (tx_id, mv) ] in
                rw (named, positive, reference)
                  (store-Called arrives rest p reference_id t _ r either
                    (λ (x : Amount × Amount) (e : r.1 ≡ ok x). (
                      tx_id,
                      transfer-Moves m server tx_id p.from_account p.to_account p.amount
                          reference_id t x e,
                    )))
          ]
        ]
      ]

  exchanged-Called :
      (xs : List Exchange) (p : TransferPayload Amount) (reference_id : String) (t : Tables Amount)
      → Called p reference_id t (exchanged m xs p reference_id t)
  exchanged-Called [] p reference_id t = inl (refl, refl)
  exchanged-Called (x ∷ rest) p reference_id t = elim (Bool-cases x.request_arrives) [
    | inl there ↦
        rw there (transfer_rpc-Called x.reply_arrives rest x.server x.tx_id p reference_id t)
    | inr gone ↦ rw gone (inl (refl, refl))
  ]

  module _ (parse_payload : Bytes → Option (TransferPayload Amount)) (intent : Intent) where
    -- An execution and its result: the tables are as before, and a transfer has failed, or the payment
    -- is made.
    abbrev pub Ran : Tables Amount → Bank m × Result ExecutionError (Unit {0}) → Type 0
    Ran t r =
        ((r.0.tables ≡ t) × (intent.type_of ≡ transfer → (e : ExecutionError) × (r.1 ≡ err e)))
        ⊎ ((p : TransferPayload Amount) × (parse_payload intent.payload ≡ some p)
            × Paid p intent.id t r.0.tables)

    called-Ran :
        (p : TransferPayload Amount) (t : Tables Amount) (r : Bank m × Bool)
        → parse_payload intent.payload ≡ some p
        → Called p intent.id t r
        → Ran t (called (bank m parse_payload) r)
    called-Ran p t (w, true) parsed (inl (same, failed)) = absurd (ground arith)
    called-Ran p t (w, false) parsed (inl (same, failed)) = inl (same, λ e. (wallet_failed, refl))
    called-Ran p t (w, true) parsed (inr paid) = inr (p, parsed, paid)
    called-Ran p t (w, false) parsed (inr paid) = inr (p, parsed, paid)

    transferred-Ran :
        (payload : Option (TransferPayload Amount)) (w : Bank m)
        → parse_payload intent.payload ≡ payload
        → Ran w.tables (transferred (bank m parse_payload) payload intent.id w)
    unfolding bank
    transferred-Ran none w parsed = inl (refl, λ e. (payload_unparsed, refl))
    transferred-Ran (some p) w parsed =
        called-Ran p w.tables (exchanged m w.exchanges p intent.id w.tables) parsed
          (exchanged-Called w.exchanges p intent.id w.tables)

    type-Ran :
        (ty : IntentType) (cancelled : Bool) (w : Bank m)
        → intent.type_of ≡ ty
        → Ran w.tables (simulated (bank m parse_payload) ty cancelled intent w)
    unfolding bank
    type-Ran transfer cancelled w e = transferred-Ran (parse_payload intent.payload) w refl
    type-Ran compute cancelled w e = inl (refl, λ f. absurd (ground (arith, e, f)))
    type-Ran query cancelled w e = inl (refl, λ f. absurd (ground (arith, e, f)))
    type-Ran scheduled_type cancelled w e = inl (refl, λ f. absurd (ground (arith, e, f)))
    type-Ran type_unspecified cancelled w e = inl (refl, λ f. absurd (ground (arith, e, f)))
    type-Ran (type_number n) cancelled w e = inl (refl, λ f. absurd (ground (arith, e, f)))

    pub run-Ran :
        (cancelled : Bool) (w : Bank m)
        → Ran w.tables (run_execution_simulation (bank m parse_payload) cancelled intent w)
    unfolding run_execution_simulation
    run-Ran cancelled w = type-Ran intent.type_of cancelled w refl

    Paid-IsProcessed :
        (p : TransferPayload Amount) (t t' : Tables Amount)
        → Paid p intent.id t t'
        → IsProcessed m intent.id t'
    Paid-IsProcessed p t t' (tx_id, mv) =
        rw mv.transactions (logged m intent.id _ t.transactions refl)

    run_processed :
        (c : Bool) (w : Bank m)
        → IsProcessed m intent.id w.tables
        → (run_execution_simulation (bank m parse_payload) c intent w).0.tables ≡ w.tables
    run_processed c w h = elim (run-Ran c w) [
      | inl (same, failed) ↦ same
      | inr (p, parsed, (tx_id, mv)) ↦ absurd (ground (arith, h, mv.fresh))
    ]

    processed_kept :
        (cs : List Bool) (w : Bank m)
        → IsProcessed m intent.id w.tables
        → (executions m parse_payload cs intent w).tables ≡ w.tables
    unfolding executions
    processed_kept [] w h = refl
    processed_kept (c ∷ cs) w h =
        let same = run_processed c w h in
        processed_kept cs (run_execution_simulation (bank m parse_payload) c intent w).0
          (subst (IsProcessed m intent.id) (sym same) h)
        ∙ same

    -- However often an intent is executed, and however the network and the wallet's server answer, the
    -- wallet's tables are as before, or the payload's amount has moved once between its accounts, under
    -- the intent's id, which was not logged before.
    pub executions_once :
        (cs : List Bool) (w : Bank m)
        → let t' = (executions m parse_payload cs intent w).tables in
          (t' ≡ w.tables)
          ⊎ ((p : TransferPayload Amount) × (parse_payload intent.payload ≡ some p)
              × Paid p intent.id w.tables t')
    unfolding executions
    executions_once [] w = inl refl
    executions_once (c ∷ cs) w =
        let w1 = (run_execution_simulation (bank m parse_payload) c intent w).0 in
        elim (run-Ran c w) [
          | inl (same, failed) ↦ elim (executions_once cs w1) [
            | inl kept ↦ inl (kept ∙ same)
            | inr (p, parsed, paid) ↦ inr (
              p,
              parsed,
              subst
                  (λ (t : Tables Amount).
                    Paid p intent.id t (executions m parse_payload cs intent w1).tables)
                  same paid,
            )
          ]
          | inr (p, parsed, paid) ↦ inr (
            p,
            parsed,
            subst (Paid p intent.id w.tables)
                (sym (processed_kept cs w1 (Paid-IsProcessed p w.tables w1.tables paid))) paid,
          )
        ]
