-- ===== src/Choker/Tests.antt =====
-- Runs of the choker, and the theorems at concrete inputs.
use go_torrent.Base.{ℕ, ◌≤◌, ◌≡◌, refl, true, false, not, ◌&&◌, none, List, [], ◌∷◌, arith, length}
use go_torrent.Choker
use go_torrent.Choker.{
  Peer, Choker, RankedPeer, store, rank, insert, sort, mem, ids, candidates, still_eligible, is_due,
  pick_optimistic, settle, regular_slots, run, choke, unchoke,
}
use go_torrent.Choker.Slots.{run_le}
use go_torrent.Choker.Settling.{choking_after, has_id, choking_after-run}

abbrev fast : Peer
fast = record { id = 1; interested = true; choking = true; downloaded = 900 }

abbrev slow : Peer
slow = record { id = 2; interested = true; choking = false; downloaded = 10 }

abbrev bored : Peer
bored = record { id = 3; interested = false; choking = false; downloaded = 500 }

abbrev peers : List Peer
peers = slow ∷ bored ∷ fast ∷ []

abbrev first_draw : ℕ → ℕ
first_draw _ = 0

abbrev two_slots : Choker
two_slots = record {
  slots = 2;
  rotation = 30;
  last_bytes = λ _. 0;
  last_rotation = none;
  optimistic = none;
}

round_effects : (Choker.run two_slots first_draw peers 100).effects ≡ choke 3 ∷ unchoke 1 ∷ []
unfolding Choker.run rank store sort insert ids regular_slots pick_optimistic still_eligible is_due
    candidates mem settle
round_effects = refl

run_le_example : length (Choker.run two_slots first_draw peers 100).chosen ≤ 2
run_le_example = run_le two_slots first_draw peers 100 (omega arith)

choking_after-run_example :
    choking_after (Choker.run two_slots first_draw peers 100).effects 1 true
    ≡ not (true && mem 1 (Choker.run two_slots first_draw peers 100).chosen)
unfolding has_id
choking_after-run_example =
    choking_after-run two_slots first_draw peers 100 1 true true refl
      ((λ e. ground arith), ((λ e. ground arith), ((λ e. (refl, refl)), tt)))

abbrev ranked : List RankedPeer
ranked = record { peer = slow; rate = 10 } ∷ record { peer = fast; rate = 900 } ∷ []
