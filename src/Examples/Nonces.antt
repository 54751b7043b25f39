-- ===== src/Examples/Nonces.antt =====
-- The nonces of the example chains: the start of a command, and the search for the first block.
use money_interoperability.Prelude.{Option, String, [], refl, arith, none}
use money_interoperability.Action.Nonces.{IsAligned, Settled}
use money_interoperability.Onemoney.Types.{CertifiedTransaction}
use money_interoperability.Incoming.Recovery.{get_latest_incomplete_block_number}
use money_interoperability.Incoming.Recovery.Search.{resume_point, InboundNonces, Answers, Resumes}
use money_interoperability.Cli.{
  outgoing_events_from_checkpoints, relay, Rounds, sidechain_command, run,
}
use money_interoperability.Cli.Start.{relay_settles, run_aligned}
use money_interoperability.Examples.{world, config, inbound_nonce, fresh}

abbrev rounds : Rounds
rounds = record { windows = 9; halvings = 50; polls = 3; items = 4 }

run_aligned_example :
    let (r, s) =
      run world rounds config
        (sidechain_command none none 10)
        (record { relayer_nonce = 0; history = [] }) in
    Settled 12 r s
run_aligned_example =
    run_aligned world rounds config (sidechain_command none none 10) 12 refl (omega arith)

world-InboundNonces : InboundNonces world inbound_nonce
world-InboundNonces = record { answered = λ h b. refl; rises = λ a b le. omega (arith, le) }

world-Answers : Answers world config 40 7
world-Answers = record { block = λ h. refl; client = λ h. refl; account = λ h. refl }

resume_point_example :
    Resumes inbound_nonce 7 40 (get_latest_incomplete_block_number world 50 config fresh).0
resume_point_example =
    resume_point world config inbound_nonce 40 7 50 fresh world-InboundNonces world-Answers refl
      (omega arith) (omega arith) (omega arith)

fresh-IsAligned : IsAligned 12 fresh
fresh-IsAligned = record { bounded = omega arith; consecutive = refl }

from_str : String → Option CertifiedTransaction
from_str s = none

relay_settles_example :
    let (exit, s) =
      relay world rounds config from_str (outgoing_events_from_checkpoints 0 10) fresh in
    Settled 12 exit s
relay_settles_example =
    relay_settles 12 world rounds config from_str (outgoing_events_from_checkpoints 0 10) fresh refl
      fresh-IsAligned
