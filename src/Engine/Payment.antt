-- ===== src/Engine/Payment.antt =====
-- The execution engine with the wallet of this repository behind its client: `Transfer` of
-- wallet/handler/handler.go fills the engine's interface. The network decides for each call whether the
-- request arrives, how the wallet's server answers it, and whether the reply arrives.
pub mod Completed
pub mod Paid
use aien.Prelude.{Bool, true, false, List, [], ◌∷◌, Option, String, ◌&&◌, if◌then◌else◌}
use aien.Prelude.Sql.{Result, ok, err, Server}
use aien.Intent.Types.{Intent, Bytes}
use aien.Wallet.Money.{Money}
use aien.Wallet.Tables.{Tables}
use aien.Wallet.Store.{Statement}
use aien.Wallet.Handler.{TransferRequest, TransferResponse, Reply, transfer_rpc}
use aien.Engine.{TransferPayload, Wallet, run_execution_simulation}

pub record Exchange : Type 0 where
  pub request_arrives : Bool
  pub server : Server Statement
  pub tx_id : String
  pub reply_arrives : Bool

module _ (m : Money) where
  open m use {Amount}

  -- The wallet's tables, and the exchanges to come. Without any the wallet cannot be reached.
  pub record Bank : Type 0 where
    pub tables : Tables Amount
    pub exchanges : List Exchange

  abbrev pub request_of : TransferPayload Amount → (reference_id : String) → TransferRequest Amount
  request_of p reference_id = record {
    from_account_id = p.from_account;
    to_account_id = p.to_account;
    amount = p.amount;
    reference_id = reference_id;
  }

  abbrev pub replied :
      (arrives : Bool)
      → List Exchange
      → Tables Amount × Reply m (TransferResponse Amount)
      → Bank × Bool
  replied arrives rest (t, ok r) = (record { tables = t; exchanges = rest }, arrives)
  replied arrives rest (t, err e) = (record { tables = t; exchanges = rest }, false)

  abbrev pub exchanged :
      List Exchange → TransferPayload Amount → String → Tables Amount → Bank × Bool
  exchanged [] p reference_id t = (record { tables = t; exchanges = [] }, false)
  exchanged (x ∷ rest) p reference_id t =
      if x.request_arrives
      then replied x.reply_arrives rest
          (transfer_rpc m x.server x.tx_id (request_of p reference_id) t)
      else (record { tables = t; exchanges = rest }, false)

  -- `walletClient.Transfer`
  unfoldable pub bank : (Bytes → Option (TransferPayload Amount)) → Wallet Bank Amount
  bank parse_payload = record {
    transfer_call = λ p reference_id w. exchanged w.exchanges p reference_id w.tables;
    parse_payload = parse_payload;
  }

  -- Executions of one intent, one after the other.
  unfoldable pub executions :
      (Bytes → Option (TransferPayload Amount)) → List Bool → Intent → Bank → Bank
  executions parse_payload [] intent w = w
  executions parse_payload (cancelled ∷ rest) intent w =
      executions parse_payload rest intent
        (run_execution_simulation (bank parse_payload) cancelled intent w).0
