-- ===== src/Audiofs/Tests/Formats.antt =====
-- Codecs and formats at concrete widgets and rates, and the theorems on them applied there.
use awase.Base.{◌≡◌, refl, List, [], ◌∷◌}
use awase.Audiofs.Codec.{Choice, find_widget, walk_path, path_from_pin, choose_dac}
use awase.Audiofs.Codec.Offers.{OfCodecs}
use awase.Audiofs.Codec.Choices.{IsChoice, choose_dac-IsChoice}
use awase.Audiofs.Format.{psr_rate_mask}
use awase.Audiofs.Stream.{output_dac_psr}
use awase.Audiofs.Control.{AudioFormat, get_format}
use awase.Audiofs.Tests.Examples.{masks, codec, playing}

speaker : path_from_pin codec 3 ≡ (2, 3 ∷ 2 ∷ [])
unfolding path_from_pin walk_path find_widget
speaker = refl

choose_dac-IsChoice_example :
    (cs : List Choice) × OfCodecs 0 (codec ∷ []) cs × IsChoice cs (choose_dac (codec ∷ []))
choose_dac-IsChoice_example = choose_dac-IsChoice (codec ∷ [])

abbrev wanted : AudioFormat
wanted = record { rate_hz = 44100; format_word = 0; bits = 16; channels = 2; supported_rates = 0 }

-- Both masks of the codec's rates are set, the one of 32000 Hz is not.
rates : (get_format masks playing).supported_rates ≡ 6
unfolding get_format psr_rate_mask output_dac_psr
rates = refl
