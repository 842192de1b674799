-- ===== src/Tests/Modules.antt =====
-- Tests and witnesses for provider/modules.
use polkahat.Prelude.{[], none, false, refl, arith}
use polkahat.Prelude.Int.{pos}
use polkahat.Prelude.Outcome.{Ends}
use polkahat.Transaction.{TypedTransaction}
use polkahat.Samples.{plain, scan}
use polkahat.MiningTimer.{fixed, stop}
use polkahat.Tests.Chain.{plain_lib, chain-IsChain}
use polkahat.Tests.Setting.{plain_vm, node}
use polkahat.Node.Frames.{HasChain}
use polkahat.Modules.Evm.{Session, set_next_block_timestamp_action}
use polkahat.Modules.NextBlock.{MinesAt, set_next_block_timestamp_action-MinesAt}

abbrev session : Session TypedTransaction
session = record {
  node = node;
  mining_timer = record {
    state = stop;
    block_time = fixed (pos 0);
    timeout = none;
    scheduled = [];
    next_id = 1;
  };
}

set_next_block_timestamp_action-MinesAt_example :
    Ends
      (λ r s'. MinesAt plain plain_lib plain_vm scan 500 s'.node)
      (λ s'. HasChain s'.node)
      (set_next_block_timestamp_action plain_lib false 500 session)
set_next_block_timestamp_action-MinesAt_example =
    set_next_block_timestamp_action-MinesAt plain plain_lib plain_vm scan 500 false session
      chain-IsChain refl (omega arith)
