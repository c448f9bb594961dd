-- ===== src/Ethereum/Client/Logs.antt =====
-- The transfers that the client takes from the logs of a block.
use mathlib.Core.Path.{subst}
use chain_watch.Prelude.{
  ◌≡◌, ◌≢◌, inl, inr, refl, true, false, Bool-cases, some, List, [], ◌∷◌, ◌==◌, nat_eq, beq_refl,
  beq_eq, beq_ne, ne_of_beq, pos, length, drop, map, All, if◌then◌else◌, arith,
}
use chain_watch.Errors.{
  GoError, Result, ok, err, sentinel, invalid_erc20_transfer_data, is_nil, sentinel_eq,
}
use chain_watch.Domain.{Erc20Transfer}
use chain_watch.Domain.Transfers.{
  Bytes, bytes_eq, GoEthereum, set_bytes, erc20_transfer_topic, is_erc20_transfer_log,
  decode_erc20_transfer, address_from_topic, topic_at,
}
use chain_watch.Ethereum.{Log}
use chain_watch.Ethereum.Client.{observed_log, decode_logs, appended}

-- `HexToHash` undoes `Hash.Hex`.
pub record HashesRoundTrip (lib : GoEthereum) : Type 0 where
  pub hash_round : (h : Bytes) → length h ≡ 32 → lib.hex_to_hash (lib.hash_hex h) ≡ h
  pub topic_length : length (erc20_transfer_topic lib) ≡ 32

abbrev pub IsHash : Bytes → Type 0
IsHash h = length h ≡ 32

-- Each topic of a log is a common.Hash.
abbrev pub IsLog : Log → Type 0
IsLog log = All IsHash log.topics

module _ (lib : GoEthereum) where
  -- A log of the event Transfer with both addresses indexed.
  pub record IsEvent (log : Log) : Type 0 where
    pub from_topic : Bytes
    pub to_topic : Bytes
    pub event : log.topics ≡ erc20_transfer_topic lib ∷ from_topic ∷ to_topic ∷ []

  abbrev pub told : Log → Bytes → Bytes → Erc20Transfer
  told log from_topic to_topic = record {
    token = lib.address_hex log.address;
    from = lib.address_hex (lib.bytes_to_address (drop 12 from_topic));
    to = lib.address_hex (lib.bytes_to_address (drop 12 to_topic));
    value = some (pos (set_bytes 0 log.payload));
    transaction_hash = lib.hash_hex log.tx_hash;
    log_index = log.index;
  }

  -- The transfers that the logs tell of, in their order; other logs tell of none.
  pub data Tells : List Log → List Erc20Transfer → Type 0 where
    tells_none : Tells [] []
    tells_other :
        (log : Log) (logs : List Log) (transfers : List Erc20Transfer)
        → (IsEvent log → ⊥)
        → Tells logs transfers
        → Tells (log ∷ logs) transfers
    tells_transfer :
        (log : Log) (logs : List Log) (transfers : List Erc20Transfer) (e : IsEvent log)
        → length log.payload ≡ 32
        → Tells logs transfers
        → Tells (log ∷ logs) (told log e.from_topic e.to_topic ∷ transfers)

  -- Some log of the event does not hold one word of data.
  pub data Malformed : List Log → Type 0 where
    malformed_here :
        (log : Log) (logs : List Log)
        → IsEvent log
        → length log.payload ≢ 32
        → Malformed (log ∷ logs)
    malformed_later : (log : Log) (logs : List Log) → Malformed logs → Malformed (log ∷ logs)

  -- What the loop makes of the logs.
  pub data Decoded (logs : List Log) (r : Result (List Erc20Transfer)) : Type 0 where
    decoded :
        (transfers : List Erc20Transfer) → r ≡ ok transfers → Tells logs transfers → Decoded logs r
    undecoded : (e : GoError) → r ≡ err e → is_nil e ≡ false → Malformed logs → Decoded logs r

  module _ (hashes : HashesRoundTrip lib) where
    -- Three topics, the first of them the topic of the event.
    event_topics :
        (topics : List Bytes)
        → All IsHash topics
        → (if length (map lib.hash_hex topics) == 3
            then lib.hex_to_hash (topic_at 0 (map lib.hash_hex topics)) == erc20_transfer_topic lib
            else false)
          ≡ true
        → (f : Bytes) × (t : Bytes) × (topics ≡ erc20_transfer_topic lib ∷ f ∷ t ∷ [])
    unfolding topic_at
    event_topics [] _ h = cc
    event_topics (a ∷ []) _ h = cc
    event_topics (a ∷ b ∷ []) _ h = cc
    event_topics (a ∷ b ∷ c ∷ []) (wa, _) h =
        let same : a ≡ erc20_transfer_topic lib =
          beq_eq a (erc20_transfer_topic lib) (rw (hashes.hash_round a wa) at h) in
        (b, c, rw same refl)
    event_topics (a ∷ b ∷ c ∷ d ∷ rest) _ h =
        let differ : (length (map lib.hash_hex (a ∷ b ∷ c ∷ d ∷ rest)) == 3) ≡ false =
          beq_ne (length (map lib.hash_hex (a ∷ b ∷ c ∷ d ∷ rest))) 3
            (λ same. omega (arith, same)) in
        absurd (false_true (rw differ at h))
      where
        false_true : false ≡ true → ⊥
        false_true e = cc

    matches_IsEvent :
        (log : Log)
        → IsLog log
        → is_erc20_transfer_log lib (observed_log lib log) ≡ true
        → IsEvent log
    unfolding is_erc20_transfer_log observed_log
    matches_IsEvent log wf h =
        let (f, t, e) = event_topics log.topics wf h in
        record { from_topic = f; to_topic = t; event = e }

    topics-IsHash :
        (log : Log) → IsLog log → (e : IsEvent log) → IsHash e.from_topic × IsHash e.to_topic
    topics-IsHash log wf e =
        let (_, (f, (t, _))) : All IsHash
            (erc20_transfer_topic lib ∷ e.from_topic ∷ e.to_topic ∷ []) =
          subst (λ topics. All IsHash topics) e.event wf in
        (f, t)

    event_matches :
        (log : Log) → IsEvent log → is_erc20_transfer_log lib (observed_log lib log) ≡ true
    unfolding is_erc20_transfer_log observed_log topic_at
    event_matches log e =
        rw (e.event, hashes.hash_round (erc20_transfer_topic lib) hashes.topic_length)
          (beq_refl (erc20_transfer_topic lib))

    address_from_topic-hash_hex :
        (h : Bytes)
        → IsHash h
        → address_from_topic lib (lib.hash_hex h)
          ≡ lib.address_hex (lib.bytes_to_address (drop 12 h))
    unfolding address_from_topic
    address_from_topic-hash_hex h whole = rw (address_from_topic, hashes.hash_round h whole)

    pub decode_told :
        (log : Log)
        → IsLog log
        → (e : IsEvent log) → length log.payload ≡ 32
        → decode_erc20_transfer lib (observed_log lib log) (observed_log lib log).transaction_hash
          ≡ ok (told log e.from_topic e.to_topic)
    unfolding decode_erc20_transfer topic_at observed_log
    decode_told log wf e whole =
        let (f, t) = topics-IsHash log wf e in
        rw (
          event_matches log e,
          whole,
          e.event,
          address_from_topic-hash_hex e.from_topic f,
          address_from_topic-hash_hex e.to_topic t,
        )

    decode_short :
        (log : Log)
        → IsEvent log
        → length log.payload ≢ 32
        → decode_erc20_transfer lib (observed_log lib log) (observed_log lib log).transaction_hash
          ≡ err (sentinel invalid_erc20_transfer_data)
    unfolding decode_erc20_transfer observed_log
    decode_short log e short = rw (event_matches log e, beq_ne (length log.payload) 32 short)

    append_told :
        (log : Log) (logs : List Log) (e : IsEvent log)
        → length log.payload ≡ 32
        → (r : Result (List Erc20Transfer)) → Decoded logs r
        → Decoded (log ∷ logs) (appended (ok (told log e.from_topic e.to_topic)) r)
    append_told log logs e whole r (decoded transfers at tells) =
        decoded (told log e.from_topic e.to_topic ∷ transfers) (rw at)
          (tells_transfer log logs transfers e whole tells)
    append_told log logs e whole r (undecoded x at real bad) =
        undecoded x (rw at) real (malformed_later log logs bad)

    skip :
        (log : Log) (logs : List Log)
        → (IsEvent log → ⊥)
        → (r : Result (List Erc20Transfer)) → Decoded logs r
        → Decoded (log ∷ logs) r
    skip log logs other r (decoded transfers at tells) =
        decoded transfers at (tells_other log logs transfers other tells)
    skip log logs other r (undecoded x at real bad) =
        undecoded x at real (malformed_later log logs bad)

    pub decode_logs-Decoded :
        (logs : List Log) → All IsLog logs → Decoded logs (decode_logs lib logs)
    unfolding decode_logs
    decode_logs-Decoded [] _ = decoded [] refl tells_none
    decode_logs-Decoded (log ∷ logs) (wf, rest) =
        elim (Bool-cases (is_erc20_transfer_log lib (observed_log lib log))) [
          | inr other ↦ rw other (
              skip log logs (λ e. cc (other, event_matches log e)) _
                (decode_logs-Decoded logs rest))
          | inl matches ↦
              let e : IsEvent log = matches_IsEvent log wf matches in
              elim (Bool-cases (length log.payload == 32)) [
                | inl whole ↦
                    rw (matches, decode_told log wf e (beq_eq (length log.payload) 32 whole))
                      (append_told log logs e (beq_eq (length log.payload) 32 whole) _
                        (decode_logs-Decoded logs rest))
                | inr short ↦
                    rw (matches, decode_short log e (ne_of_beq (length log.payload) 32 short))
                      (undecoded _ refl refl
                        (malformed_here log logs e (ne_of_beq (length log.payload) 32 short)))
              ]
        ]
