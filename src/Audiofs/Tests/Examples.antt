-- ===== src/Audiofs/Tests/Examples.antt =====
-- The controllers and rings of the tests.
use awase.Base.{
  ℕ, ◌+◌, ◌%◌, ◌≡◌, refl, ap, ◌∙◌, true, false, none, some, List, [], ◌∷◌, ◌++◌, replicate,
  length-append, length-replicate, arith,
}
use awase.Base.Indexed.{get_elem?, get_elem?-append_left}
use awase.Audiofs.Ring.{UserRing}
use awase.Audiofs.Ring.Contents.{Holds}
use awase.Audiofs.Ring.Queue.{Ready}
use awase.Audiofs.Format.{Masks}
use awase.Audiofs.Codec.{Codec, audio_output, pin_complex}
use awase.Audiofs.Softc.{Softc, no_status, no_xruns, sine, user}

-- Bits as in the kernel's header.
abbrev pub masks : Masks
masks = record { khz32 = 8; khz44 = 32; khz48 = 64 }

-- A pin for a speaker that leads to a converter.
abbrev pub codec : Codec
codec = record {
  populated = true;
  supp_pcm_size_rate = 0x60;
  widget_start = 2;
  widgets =
      record {
        valid = true;
        nid = 2;
        kind = audio_output;
        devkind = 0;
        connectivity = 0;
        conns = [];
      }
      ∷ record {
        valid = true;
        nid = 3;
        kind = pin_complex;
        devkind = 1;
        connectivity = 2;
        conns = 2 ∷ [];
      }
      ∷ [];
}

abbrev pub two_frames : List ℕ
two_frames = 1 ∷ 2 ∷ 3 ∷ 4 ∷ 5 ∷ 6 ∷ 7 ∷ 8 ∷ []

abbrev pub waiting : UserRing
waiting = record { bytes = two_frames ++ replicate 32760 0; head = 8; tail = 0 }

pub waiting-Ready : Ready waiting two_frames
unfolding Holds
waiting-Ready = record {
  size =
      omega (arith, length-append two_frames (replicate 32760 0), length-replicate {A = ℕ} 32760 0);
  tail_fits = omega arith;
  head_at = refl;
  fits = omega arith;
  frames = refl;
  holds = λ i small.
      let place : (0 + i) % 32768 ≡ i = omega arith in
      ap (get_elem? waiting.bytes) place
      ∙ get_elem?-append_left two_frames (replicate 32760 0) i small;
}

-- A controller that was attached, and nothing else yet.
abbrev pub attached : Softc
attached = record {
  num_oss = 1;
  codecs = codec ∷ [];
  configured = false;
  stream_id = 0;
  dac_cad = 0;
  dac_nid = 0;
  format_word = 0;
  rate_hz = 0;
  bdl_dma = none;
  buf_dma = none;
  live = [];
  dma = [];
  active = false;
  last_sdsts = no_status;
  prev_lpib = 0;
  next_refill_fragment = 0;
  frames_played = 0;
  clock_samples_total = 0;
  endpoint_slot = 0;
  source = sine;
  ring = record { bytes = []; head = 0; tail = 0 };
  cdev_open = false;
  underflow_count = 0;
  refill_miss_count = 0;
  refill_multi_count = 0;
  xruns = no_xruns;
  regs = record { stream_interrupt = false; running = false };
  clock = some (record { rate = 0; valid = false; samples = 0 });
  events = [];
  commands = [];
}

-- One that plays what is written.
abbrev pub playing : Softc
playing = record attached {
  configured = true;
  stream_id = 1;
  dma = replicate 16384 7;
  active = true;
  frames_played = 5000;
  source = user;
  ring = waiting;
}
