-- ===== src/Tests/Random.antt =====
-- Witnesses: mints at random places of the queue.
use hub_nfts.Prelude.{false}
use hub_nfts.Effects.{Wp, IfOk}
use hub_nfts.Mutations.Mints.Random.{mint_random_queued_to_drop}
use hub_nfts.Mutations.Mints.Random.OneDrawn.{TakesDrawn, mint_random_queued_to_drop-TakesDrawn}
use hub_nfts.Tests.Example.{world, headers}

mint_random_queued_to_drop-TakesDrawn_example :
    Wp
      (IfOk (λ m. TakesDrawn 20 world))
      (mint_random_queued_to_drop headers 20 "recipient" false)
      world
mint_random_queued_to_drop-TakesDrawn_example =
    mint_random_queued_to_drop-TakesDrawn headers 20 "recipient" false world
