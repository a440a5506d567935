-- ===== src/Runtime/Config/Options.antt =====
-- runtime_config.cpp: what the loop of `parse_runtime_config` over the options keeps.
use driveflow_runtime.Prelude.{
  ℕ, ◌+◌, ◌≡◌, ◌≤◌, refl, inl, inr, Bool, Bool-cases, true, false, not, ◌&&◌, Option, none, some,
  List, [], ◌∷◌, ◌++◌, arith, length, ◌==◌, if◌then◌else◌,
}
use driveflow_runtime.Prelude.Lists.{length-append}
use driveflow_runtime.Prelude.Int.{pos, leb_ℤ}
use driveflow_runtime.Prelude.Parsed.{text, required, Gives, Gives-bind, Gives-required}
use driveflow_runtime.Net.{Text, Ipv4Endpoint, text_eq, contains}
use driveflow_runtime.Runtime.Receiver.Setup.{int_max}
use driveflow_runtime.Runtime.Config.Defs.{
  RuntimeConfig, ParserState, OptionName, count_option, poll_timeout_option, max_drain_option,
  max_sources_option, degraded_option, offline_option, recovery_option, workers_option,
  queue_option, unknown_option, option_name, parse_positive_integer, parse_milliseconds,
  parse_endpoint, demanded, apply_number, add_listener, apply_option, parse_options, default_config,
}

abbrev is_count : Option ℕ → Bool
is_count none = true
is_count (some n) = not (n == 0)

-- The numbers of a configuration are as the parts of the runtime want them, but for the order of
-- the two timeouts.
unfoldable pub is_numbered : RuntimeConfig → Bool
is_numbered c =
    is_count c.packet_count
    && (not (leb_ℤ c.poll_timeout (pos 0))
        && (leb_ℤ c.poll_timeout (pos int_max)
            && (not (c.receiver.max_datagrams_per_listener_per_poll == 0)
                && (not (c.health.max_sources == 0)
                    && (not (c.health.healthy_after_packets == 0)
                        && (not (leb_ℤ c.health.degraded_after (pos 0))
                            && (not (leb_ℤ c.health.recovery_after (pos 0))
                                && (not (c.pipeline.worker_count == 0)
                                    && not (c.pipeline.queue_capacity == 0)))))))))

pub default_config-is_numbered : is_numbered default_config ≡ true
unfolding is_numbered
default_config-is_numbered = refl

apply_number-is_numbered :
    (c : RuntimeConfig) (option : Text) (number : ℕ) (name : OptionName)
    → (number == 0) ≡ false
    → is_numbered c ≡ true
    → Gives
        (λ d. (is_numbered d ≡ true) × (d.receiver.listen_endpoints ≡ c.receiver.listen_endpoints))
        (apply_number c option number name)
unfolding apply_number is_numbered parse_milliseconds
apply_number-is_numbered c option number count_option hn hc = ground (arith, hn, hc)
apply_number-is_numbered c option number poll_timeout_option hn hc = ground (arith, hn, hc)
apply_number-is_numbered c option number max_drain_option hn hc = ground (arith, hn, hc)
apply_number-is_numbered c option number max_sources_option hn hc = ground (arith, hn, hc)
apply_number-is_numbered c option number degraded_option hn hc = ground (arith, hn, hc)
apply_number-is_numbered c option number offline_option hn hc = ground (arith, hn, hc)
apply_number-is_numbered c option number recovery_option hn hc = ground (arith, hn, hc)
apply_number-is_numbered c option number workers_option hn hc = ground (arith, hn, hc)
apply_number-is_numbered c option number queue_option hn hc = ground (arith, hn, hc)
apply_number-is_numbered c option number unknown_option hn hc = tt

-- How many endpoints are listened on.
abbrev pub listeners : ParserState → ℕ
listeners st = length st.config.receiver.listen_endpoints

-- What the loop keeps, with room for `k` listeners in all.
pub record IsParsed (k : ℕ) (rest : List Text) (st : ParserState) : Type 0 where
  pub numbered : is_numbered st.config ≡ true
  pub listening : 1 ≤ listeners st
  pub bounded : listeners st + length rest ≤ k

parse_positive_integer-positive :
    (value : Text) (n : ℕ) → parse_positive_integer value ≡ some n → (n == 0) ≡ false
unfolding parse_positive_integer
parse_positive_integer-positive value n e = ground (arith, e)

Gives-demanded :
    {A : Type 0} (Holds : A → Type 0) (o : Option A) (message : Text)
    → ((a : A) → o ≡ some a → Holds a)
    → Gives Holds (demanded o message)
Gives-demanded Holds none message h = tt
Gives-demanded Holds (some a) message h = h a refl

add_listener-IsParsed :
    (k : ℕ) (option value : Text) (rest : List Text) (st : ParserState) (endpoint : Ipv4Endpoint)
    → IsParsed k (option ∷ value ∷ rest) st
    → IsParsed k rest (add_listener st endpoint)
unfolding add_listener is_numbered
add_listener-IsParsed k option value rest st endpoint p = record {
  numbered = p.numbered;
  listening = ground (
    arith,
    length-append (if st.has_explicit_listener then st.config.receiver.listen_endpoints else [])
        (endpoint ∷ []),
  );
  bounded = ground (
    arith,
    p.bounded,
    length-append (if st.has_explicit_listener then st.config.receiver.listen_endpoints else [])
        (endpoint ∷ []),
  );
}

module _ (is_ipv4_address : Text → Bool) where
  apply_option-IsParsed :
      (k : ℕ) (option value : Text) (rest : List Text) (st : ParserState)
      → IsParsed k (option ∷ value ∷ rest) st
      → Gives (IsParsed k rest) (apply_option is_ipv4_address st option value)
  unfolding apply_option
  apply_option-IsParsed k option value rest st p =
      elim (Bool-cases (text_eq option (text "--listen"))) [
        | inl listen ↦ rw listen (
            Gives-bind (λ e. Unit) (IsParsed k rest)
              (required (parse_endpoint is_ipv4_address value)
                "--listen must use IPv4:port with port between 1 and 65535")
              _ (Gives-required (λ e. Unit) (parse_endpoint is_ipv4_address value) _ λ a e. tt)
              λ endpoint h. add_listener-IsParsed k option value rest st endpoint p)
        | inr single ↦ elim (Bool-cases (contains option st.seen_singleton_options)) [
          | inl again ↦ rw (single, again) tt
          | inr new ↦
              rw (single, new)
                (Gives-bind (λ n. (n == 0) ≡ false) (IsParsed k rest)
                  (demanded (parse_positive_integer value)
                    (option ++ text " must be a positive integer"))
                  _
                  (Gives-demanded _ (parse_positive_integer value) _
                    (parse_positive_integer-positive value))
                  λ n positive.
                    Gives-bind _ (IsParsed k rest)
                      (apply_number st.config option n (option_name option)) _
                      (apply_number-is_numbered st.config option n (option_name option) positive
                        p.numbered)
                      λ config kept. record {
                        numbered = kept.0;
                        listening = rw (kept.1) p.listening;
                        bounded = rw (kept.1) (omega (arith, p.bounded));
                      })
        ]
      ]

  pub parse_options-IsParsed :
      (k : ℕ) (arguments : List Text) (st : ParserState)
      → IsParsed k arguments st
      → Gives (IsParsed k []) (parse_options is_ipv4_address arguments st)
  unfolding parse_options
  parse_options-IsParsed k [] st p = p
  parse_options-IsParsed k (option ∷ []) st p = tt
  parse_options-IsParsed k (option ∷ value ∷ rest) st p =
      Gives-bind (IsParsed k rest) (IsParsed k []) (apply_option is_ipv4_address st option value) _
        (apply_option-IsParsed k option value rest st p)
        λ st' q. parse_options-IsParsed k rest st' q
