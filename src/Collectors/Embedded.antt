-- ===== src/Collectors/Embedded.antt =====
-- quic-go-bbr/internal/congestion/stats_wrapper.go: BBRv1SenderWithStats and BBRv3SenderWithStats, which
-- embed a sender and listen in on three of its methods. `wall` is the clock that ShouldLog reads.
use moq_quic_bbrv3_go.Prelude.{ℕ, ◌≡◌, refl, ap, ◌∙◌, Bool, List, [], ◌∷◌, if◌then◌else◌}
use Prim.Native.String.{String}
use moq_quic_bbrv3_go.Bbr1.Float as Float1
use moq_quic_bbrv3_go.Bbr1.State as State1
use moq_quic_bbrv3_go.Bbr1.Calls as Calls1
use moq_quic_bbrv3_go.Bbr3.Float as Float3
use moq_quic_bbrv3_go.Bbr3.State as State3
use moq_quic_bbrv3_go.Bbr3.Events as Events3
use moq_quic_bbrv3_go.Collectors.Calls.{bytes_sent, bytes_lost, retransmit, cwnd, inflight, state}
use moq_quic_bbrv3_go.Collectors.Atomic.{
  StatsCollector, CollectorConfig, new_stats_collector, collect, should_log,
}

pub record WithStats (S V : Type 0) : Type 0 where
  pub sender : S
  pub stats : StatsCollector V

-- The three methods' calls of the collector.
unfoldable pub count_sent : {V : Type 0} → ℕ → Bool → StatsCollector V → StatsCollector V
count_sent k r c = if r then collect (bytes_sent k) c else c

unfoldable pub count_acked : {V : Type 0} → ℕ → ℕ → ℕ → String → StatsCollector V → StatsCollector V
count_acked wall window p name c =
    (should_log wall (collect (state name) (collect (inflight p) (collect (cwnd window) c)))).1

unfoldable pub count_lost : {V : Type 0} → ℕ → StatsCollector V → StatsCollector V
count_lost k c = collect retransmit (collect (bytes_lost k) c)

-- getBBRv1State and getBBRv3State
unfoldable pub bbrv1_state : {F : Type 0} → State1.Sender F → String
bbrv1_state b = if State1.is_startup b.state then "Startup" else "ProbeBW"

unfoldable pub bbrv3_state : {F : Type 0} → State3.Sender F → String
bbrv3_state b = if Events3.in_slow_start b then "Startup" else "ProbeBW"

module _ {F V : Type 0} (fl : Float1.Float F) where
  unfoldable pub new_bbrv1_with_stats :
      ℕ → ℕ → ℕ → CollectorConfig → ℕ → WithStats (State1.Sender F) V
  new_bbrv1_with_stats now now' size config wall = record {
    sender = State1.new_sender fl now now' size;
    stats = new_stats_collector (record config { algorithm = "BBRv1" }) wall;
  }

  -- The methods, with what the packet's flag and the clock were.
  unfoldable pub bbrv1_step :
      ℕ → Bool → Calls1.Event → WithStats (State1.Sender F) V → WithStats (State1.Sender F) V
  unfolding count_sent count_acked count_lost bbrv1_state
  bbrv1_step wall r (Calls1.packet_sent t n k) s = record {
    stats = count_sent k r s.stats;
    sender = Calls1.on_packet_sent fl t n k s.sender;
  }
  bbrv1_step wall r (Calls1.packet_acked n k p t) s =
      let b = Calls1.on_packet_acked fl n k p t s.sender in
      record { sender = b; stats = count_acked wall (State1.cwnd fl b) p (bbrv1_state b) s.stats }
  bbrv1_step wall r (Calls1.congestion n k p) s = record {
    stats = count_lost k s.stats;
    sender = Calls1.on_congestion_event fl n k p s.sender;
  }
  bbrv1_step wall r e s = record s { sender = Calls1.step fl e s.sender }

  unfoldable pub bbrv1_run :
      List (ℕ × Bool × Calls1.Event) → WithStats (State1.Sender F) V → WithStats (State1.Sender F) V
  unfolding bbrv1_step
  bbrv1_run [] s = s
  bbrv1_run ((wall, r, e) ∷ es) s = bbrv1_run es (bbrv1_step wall r e s)

module _ {F V : Type 0} (fl : Float3.Float F) where
  unfoldable pub new_bbrv3_with_stats :
      ℕ → ℕ → ℕ → CollectorConfig → ℕ → WithStats (State3.Sender F) V
  new_bbrv3_with_stats now now' size config wall = record {
    sender = Events3.new_sender fl now now' size;
    stats = new_stats_collector (record config { algorithm = "BBRv3" }) wall;
  }

  unfoldable pub bbrv3_step :
      ℕ → Events3.Event → WithStats (State3.Sender F) V → WithStats (State3.Sender F) V
  unfolding count_sent count_acked count_lost bbrv3_state
  bbrv3_step wall (Events3.packet_sent t n k r) s = record {
    stats = count_sent k r s.stats;
    sender = Events3.on_packet_sent fl t n k r s.sender;
  }
  bbrv3_step wall (Events3.packet_acked m w n k p t) s =
      let b = Events3.on_packet_acked fl m w n k p t s.sender in
      record {
        sender = b;
        stats = count_acked wall (Events3.get_congestion_window b) p (bbrv3_state b) s.stats;
      }
  bbrv3_step wall (Events3.congestion m k) s = record {
    stats = count_lost k s.stats;
    sender = Events3.step fl (Events3.congestion m k) s.sender;
  }
  bbrv3_step wall e s = record s { sender = Events3.step fl e s.sender }

  unfoldable pub bbrv3_run :
      List (ℕ × Events3.Event) → WithStats (State3.Sender F) V → WithStats (State3.Sender F) V
  unfolding bbrv3_step
  bbrv3_run [] s = s
  bbrv3_run ((wall, e) ∷ es) s = bbrv3_run es (bbrv3_step wall e s)

abbrev calls_of_v1 : List (ℕ × Bool × Calls1.Event) → List Calls1.Event
calls_of_v1 [] = []
calls_of_v1 ((wall, r, e) ∷ es) = e ∷ calls_of_v1 es

abbrev calls_of_v3 : List (ℕ × Events3.Event) → List Events3.Event
calls_of_v3 [] = []
calls_of_v3 ((wall, e) ∷ es) = e ∷ calls_of_v3 es

-- The embedded sender is the sender that the same calls leave alone.
module _ {F V : Type 0} (fl : Float1.Float F) where
  bbrv1_step-sender :
      (wall : ℕ) (r : Bool) (e : Calls1.Event) (s : WithStats (State1.Sender F) V)
      → (bbrv1_step fl wall r e s).sender ≡ Calls1.step fl e s.sender
  unfolding bbrv1_step Calls1.step
  bbrv1_step-sender wall r (Calls1.datagram_size k) s = refl
  bbrv1_step-sender wall r e s = refl

  pub bbrv1_run-sender :
      (es : List (ℕ × Bool × Calls1.Event)) (s : WithStats (State1.Sender F) V)
      → (bbrv1_run fl es s).sender ≡ Calls1.run fl (calls_of_v1 es) s.sender
  unfolding bbrv1_run Calls1.run
  bbrv1_run-sender [] s = refl
  bbrv1_run-sender ((wall, r, e) ∷ es) s =
      bbrv1_run-sender es (bbrv1_step fl wall r e s)
      ∙ ap (λ b. Calls1.run fl (calls_of_v1 es) b) (bbrv1_step-sender wall r e s)

module _ {F V : Type 0} (fl : Float3.Float F) where
  bbrv3_step-sender :
      (wall : ℕ) (e : Events3.Event) (s : WithStats (State3.Sender F) V)
      → (bbrv3_step fl wall e s).sender ≡ Events3.step fl e s.sender
  unfolding bbrv3_step Events3.step
  bbrv3_step-sender wall (Events3.datagram_size k) s = refl
  bbrv3_step-sender wall e s = refl

  pub bbrv3_run-sender :
      (es : List (ℕ × Events3.Event)) (s : WithStats (State3.Sender F) V)
      → (bbrv3_run fl es s).sender ≡ Events3.run fl (calls_of_v3 es) s.sender
  unfolding bbrv3_run Events3.run
  bbrv3_run-sender [] s = refl
  bbrv3_run-sender ((wall, e) ∷ es) s =
      bbrv3_run-sender es (bbrv3_step fl wall e s)
      ∙ ap (λ b. Events3.run fl (calls_of_v3 es) b) (bbrv3_step-sender wall e s)
