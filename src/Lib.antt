-- ===== src/Lib.antt =====
-- A verification library for the DSM offline-bearer anchor: a device that advances a root of the
-- DSM state without being online, bound to a secure element (TROPIC01), and the receiver that
-- checks what the device exports.
--
-- The program's parts and the files that model them:
-- * anchor-core/src/util.rs (Util.antt): `push_var`, `ct_eq_32` with its loop, `u16_le`, `u32_le`,
--   `u64_le`. A byte string is a `List ℕ`, and `[u8; n]` is `Array n` of Common/Arrays.antt.
-- * anchor-core/src/domain.rs and hash.rs (Domain.antt, Hash.antt): the tags, `h` and `kdf`.
-- * anchor-core/src/tropic.rs (Tropic.antt): the traits `Tropic` and `WitnessSig` as records, and
--   what the code relies on in them, `CounterLaws` and `IsCorrect`.
-- * anchor-core/src/root_advance.rs (RootAdvance.antt): `Transition`, `enc_transition`, the digests
--   D, X, P_hw and M, and the parts of a release.
-- * anchor-core/src/sig.rs (Sig.antt): `WotsBlake3`, the scheme that fills `WitnessSig`.
-- * anchor-core/src/appliance.rs (Appliance.antt for the data, Appliance/Operations.antt for
--   `prepare`, `commit`, `emit`, `finalize` and `cancel`, Appliance/Recovery.antt for `recover`). An
--   operation is a function from the appliance, its chip included, to a result and the appliance
--   after the call; the state of an operation that fails is what it wrote up to there.
--   Appliance/Resume.antt and Appliance/KeyLost.antt are about a commit that a power loss cuts
--   off, in or before its second phase, Appliance/TornKey.antt about one that is cut off while it
--   overwrites the witness key, and Appliance/Stranded.antt about a `prepare`. The invariant of
--   Appliance/Invariant.antt has a core that does not speak of the key, and a part that does;
--   Appliance/Ledger.antt holds the chain of roots that Appliance/OneChain.antt puts a device's
--   history on.
-- * anchor-core/src/accept.rs (Accept.antt): `accept_offline` over the two verifier traits; what its
--   checks say is in Accept/Predicate.antt, and one by one with their errors in Accept/Errors.antt.
--   Accept/Newest.antt, Accept/Once.antt, Accept/Delivery.antt and Accept/Deliveries.antt put the
--   receiver behind the device, its history and its frames.
-- * anchor-core/src/proto.rs (Proto.antt, and Proto/Pb.antt for the messages of
--   proto/dsm_anchor.proto): the validated conversions.
-- * anchor-core/src/service.rs (Service.antt): `dispatch` and `handle`; the device as a host sees it
--   over time is in Service/History.antt, and the four requests of a transfer are in
--   Service/Transfer.antt.
-- * firmware/src/main.rs (Firmware.antt for the chip bridge, `enroll`, `SecureCore::handle` and the
--   trivial verifiers; Firmware/SelfTest.antt for `prepare_request`, `rt` and `self_test`;
--   Firmware/Boot.antt for the appliance that `main` serves and its boot recovery;
--   Firmware/Phases.antt for phases 4 and 5 of `main` on one chip, and Firmware/Startup.antt for
--   `main` from phase 2 on, with what it puts on the port; Firmware/Receive.antt for the receive loop
--   of `serve_forever`, and Firmware/Port.antt for the same loop on a port that may be full and may
--   fail; Firmware/Entropy.antt for the random bytes and Firmware/Paced.antt for the timed loops of
--   phases 1 and 4; Firmware/Output.antt for `write_all` and `BufW`; Firmware/Report.antt for the
--   self-test report).
--
-- A byte, a u16, a u32 and a u64 are natural numbers here.
--
-- How they interact: the host sends frames; `receive` cuts them out of the byte stream and hands
-- each to `handle`, which decodes a request and calls one operation of the appliance; an operation
-- reads and moves the counter of the chip; `emit` hands out a release, and the receiver runs
-- `accept_offline` on it. Appliance/Trace.antt puts the operations in sequence as a step relation,
-- with power loss between any two writes of an operation, the overwriting of a key byte by byte
-- included, a counter that is lowered from outside, and the boot checks as further steps.
--
-- Machine integers: indices are u64, counter values u32, slots u16 and lengths below 2 ^ 32; where
-- the code may wrap or truncate, `% 2 ^ w` is written out (`prepare`, `push_var`, the frame
-- length), and checked arithmetic returns an option. The loop of `serve_frames` runs on fuel: each
-- round that goes on drains at least four bytes, so the length of the buffer is enough.
-- `write_all` runs on the answers of the port, call by call, and waits where they end; the loop of
-- Firmware/Port.antt passes the answers on from one write to the next, and stops where one waits.
-- The timed loops run on a number of rounds, and end in as many as the timer has readings until
-- the time comes.
--
-- Taken from outside, as parameters with the laws that the code relies on: BLAKE3 (the crate
-- blake3: updates append, the output is bytes), the TROPIC01 session (the crate tropic01;
-- SessionLaws and Answers of Firmware/Enrolment.antt), the protobuf codec (the crate prost;
-- ProstLaws of Proto.antt: it reads back what it wrote), the number formatting of core::fmt
-- (Display of Firmware/Report.antt), the ring oscillator and the timer (the crate rp235x-hal; Rosc
-- of Firmware/Entropy.antt, Timer and TimerLaws of Firmware/Paced.antt), the chip before its session
-- and the keys for one (Handshake of Firmware/Startup.antt), and the receiver's DSM and counter
-- verifiers. What is said of binding is up to
-- a collision of two named messages that the code hashes at the same place (Hash/Binding.antt).
--
-- Not modelled: the hardware set-up in the firmware's `main` (heap, clocks, USB and SPI, the
-- transfers of the link probe), how much of a message its `put` gets onto the port, the build
-- scripts, the tests and the host tool. Overwriting of local copies of secrets is not visible in a
-- functional model; the key of a record is seen to be gone since the record that replaces it has
-- none. Panics on inputs that the program never passes (`sign` with a short key) are left out.
pub mod Common
pub mod Util
pub mod Domain
pub mod Hash
pub mod Tropic
pub mod RootAdvance
pub mod Sig
pub mod Appliance
pub mod Accept
pub mod Proto
pub mod Service
pub mod Firmware
pub mod Examples
