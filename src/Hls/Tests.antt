-- ===== src/Hls/Tests.antt =====
-- src/hls.cpp at a sample playlist.
use shigoku.Match.Titles.{take_digits}
use shigoku.Domain.Enums.{quality_cap}
use shigoku.Hls.{
  StreamLink, select_variant, parse_master_playlist, preferred, trim_line, stream_inf_height,
  quality_rank, read_height,
}
use shigoku.Common.{
  ℕ, List, Bytes, codes, none, ◌∷◌, some, [], ◌≡◌, false, refl, split_text, strip_prefix, ◌++◌,
}
use shigoku.Domain.Types.{p720}

abbrev link : ℕ → StreamLink
link height = record {
  url = codes "u";
  resolution = some height;
  referer = none;
  user_agent = none;
  cloaked_segments = false;
  decloak_segments = false;
  sub_url = none;
  playlist_cipher = none;
}

abbrev unknown : StreamLink
unknown = record (link 0) { resolution = none }

abbrev offered : List StreamLink
offered = unknown ∷ link 1080 ∷ link 480 ∷ link 360 ∷ []

within_cap : select_variant offered p720 ≡ some (link 480)
unfolding select_variant preferred quality_cap quality_rank
within_cap = refl

cap_720 : quality_cap p720 ≡ some 720
unfolding quality_cap
cap_720 = refl

-- A line feed.
abbrev feed : Bytes
feed = 10 ∷ []

reads :
    parse_master_playlist (
      codes "#EXTM3U"
      ++ feed
      ++ codes "#EXT-X-STREAM-INF:RESOLUTION=1280x720"
      ++ feed
      ++ codes " a.m3u8 ")
    ≡ record { url = codes "a.m3u8"; resolution = some 720 } ∷ []
unfolding parse_master_playlist trim_line stream_inf_height read_height split_text strip_prefix
    take_digits
reads = refl
