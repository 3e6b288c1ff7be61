-- ===== src/Transport/Contracts.antt =====
-- The errors and channel states of crates/entangle-transport/src/contracts.rs.
use entangle.Prelude.{ℕ}

pub data LoanError : Type 0 where
  out_of_memory : LoanError
  exceeds_max_loans : (max : ℕ) → LoanError

pub data SendError : Type 0 where
  broken queue_full : SendError

pub data ReceiveError : Type 0 where
  empty connection_broken : ReceiveError

pub data ChannelState : Type 0 where
  creating connected disconnected : ChannelState
