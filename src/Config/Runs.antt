-- ===== src/Config/Runs.antt =====
-- Runs of Normalize.
use goed2k_server.Base.{◌≡◌, refl}
use goed2k_server.Base.Int.{pos}
use goed2k_server.Base.Text.{text}
use goed2k_server.Samples.{ascii}
use goed2k_server.Config.{Config, default_config, normalized, normalize}
use goed2k_server.Config.Bounds.{Bounded, IsBackend, normalize-Bounded, normalize_twice}

abbrev raw : Config
raw = record default_config {
  search_batch_size = pos 0;
  max_sources_per_reply = pos 300;
  storage_backend = text " JSON";
}

abbrev filled : Config
filled = record default_config { max_sources_per_reply = pos 255 }

raw-normalize : normalize ascii raw ≡ normalized filled
unfolding normalize
raw-normalize = refl

normalize-Bounded_example : Bounded filled × IsBackend filled.storage_backend
normalize-Bounded_example = normalize-Bounded ascii raw filled raw-normalize

normalize_twice_example : normalize ascii filled ≡ normalized filled
normalize_twice_example = normalize_twice ascii refl refl refl raw filled raw-normalize
