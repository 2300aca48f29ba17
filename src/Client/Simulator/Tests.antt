-- ===== src/Client/Simulator/Tests.antt =====
-- client/src/simulator.rs on a session of two seconds, in which a user visits a page and then downloads a file;
-- no server answers.
use npt.Prelude.{refl, ℕ, ◌+◌, ◌*◌, [], ◌∷◌, false, arith}
use npt.Prelude.Float.{whole_numbers_32}
use npt.Shared.Config.{TestConfig, default_test_config, default_load_balancer}
use npt.Shared.Metrics.{new}
use npt.Wire.Tests.{plain_codec, plain_world, plain_texts, plain_link}
use npt.Client.TcpClient.{ClientState, Network, Ticket}
use npt.Client.QuicClient.{QuicWorld, out_of_time, refused}
use npt.Client.Simulator.{Turn, simulate_user_behavior}
use npt.Client.Simulator.Sessions.{EndsWell, simulate_user-EndsWell}

-- Each weight is 1.
abbrev config : TestConfig ℕ
config =
    let d = default_test_config whole_numbers_32 1 in
    record d {
      duration = 2000;
      user_behavior = record d.user_behavior {
        activity_weights = record {
          web_browsing = 1;
          file_download = 1;
          file_upload = 1;
          quic_browsing = 1;
        };
      };
    }

abbrev network : Network
network = record {
  attempts = λ i. record {
    chance = record { gen_range = λ n. 0; new_uuid = 0 };
    reaches = λ a. false;
    now = i;
  };
  dial = λ a. plain_link [];
}

abbrev ticket : Ticket
ticket = record { id = 42; session_id = 5; place = 0; start = 1; failed_at = 2; end = 3 }

abbrev quic_world : QuicWorld
quic_world = record {
  chance = record { gen_range = λ n. 0; new_uuid = 0 };
  started_at = 0;
  connecting = out_of_time;
  failed_at = 0;
  address_text = λ a. [];
  num_resources = λ n. 0;
  page_replies = λ n. record { main = refused []; resources = []; in_time = false };
  page_failed_at = λ n. 0;
}

-- A turn begins with each second.
abbrev turn : ℕ → Turn ℕ
turn i = record {
  random_weight = i;
  gen_range = λ n low high. low;
  elapsed = i * 1000000000;
  woken = i * 1000000000 + 100000000;
  stopped = false;
  fuel = 1;
  world = plain_world;
  last_error = [];
  pages = (network, ticket) ∷ [];
  network = network;
  ticket = ticket;
  quic_world = quic_world;
  quic_ticket = record { id = 43; session_id = []; place = 0; start = 1; end = 3 };
}

abbrev started : ClientState ℕ
started = record {
  pool = (npt.Client.ServerPool.new 0 ((2, 0) ∷ (1, 0) ∷ []) default_load_balancer).0;
  metrics = new ℕ 0;
  asked = 0;
  panicked = false;
}

simulate_user-EndsWell_example : EndsWell whole_numbers_32 config turn 2000000000 started.metrics (
    simulate_user_behavior whole_numbers_32 plain_codec plain_texts config turn 2001
      (λ low high. high)
      started)
unfolding new
simulate_user-EndsWell_example =
    simulate_user-EndsWell whole_numbers_32 config plain_codec plain_texts turn (λ low high. high)
      started (omega arith, omega arith, omega arith) (λ i. (omega arith, omega arith))
      (λ i n low high h. (omega arith, h)) (λ i a. omega arith) (omega arith)
      (λ low high h. (h, omega arith)) refl (omega arith)
