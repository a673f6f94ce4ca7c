-- ===== src/Icy2/Headers.antt =====
-- src/icy2_meta.c, lines 226 to 508: the fields that `icy2_meta_parse_headers` reads, by section:
-- the member, the kind of its value, its header, and the header of version 2.1 that it falls back to.
use mcaster1dnas.Base.{List, [], codes, ◌++◌, ◌∷◌}
use mcaster1dnas.Icy2.Rows.{Row, both, integer, only, string}

abbrev pub version_rows : List Row
version_rows =
    both string (codes "metadata_version") (codes "icy-meta-version") (codes "icy-metadata-version")
    ∷ []

abbrev pub core_rows : List Row
core_rows =
    both string (codes "station_id") (codes "icy-meta-station-id") (codes "icy-station-id")
    ∷ both string (codes "station_name") (codes "icy-meta-name") (codes "icy-name")
    ∷ both string (codes "station_url") (codes "icy-meta-url") (codes "icy-url")
    ∷ both string (codes "station_genre") (codes "icy-meta-genre") (codes "icy-genre")
    ∷ both integer (codes "station_bitrate") (codes "icy-meta-br") (codes "icy-br")
    ∷ both integer (codes "station_public") (codes "icy-meta-pub") (codes "icy-pub")
    ∷ []

abbrev pub station_rows : List Row
station_rows =
    only string (codes "station_slogan") (codes "icy-meta-station-slogan")
    ∷ only string (codes "station_logo") (codes "icy-meta-station-logo")
    ∷ only string (codes "station_founded") (codes "icy-meta-station-founded")
    ∷ only string (codes "station_type") (codes "icy-meta-station-type")
    ∷ only string (codes "station_country") (codes "icy-meta-station-country")
    ∷ []

abbrev pub show_rows : List Row
show_rows =
    only string (codes "show_title") (codes "icy-meta-show-title")
    ∷ only string (codes "show_episode") (codes "icy-meta-show-episode")
    ∷ only string (codes "show_season") (codes "icy-meta-show-season")
    ∷ only string (codes "show_start_time") (codes "icy-meta-show-start-time")
    ∷ only string (codes "show_end_time") (codes "icy-meta-show-end-time")
    ∷ only string (codes "playlist_name") (codes "icy-meta-playlist-name")
    ∷ only integer (codes "autodj") (codes "icy-meta-autodj")
    ∷ only string (codes "stream_session_id") (codes "icy-meta-stream-session-id")
    ∷ []

abbrev pub host_rows : List Row
host_rows =
    both string (codes "dj_handle") (codes "icy-meta-dj-handle") (codes "icy-dj-handle")
    ∷ only string (codes "dj_bio") (codes "icy-meta-dj-bio")
    ∷ only string (codes "dj_showrating") (codes "icy-meta-dj-showrating")
    ∷ only string (codes "dj_photo") (codes "icy-meta-dj-photo")
    ∷ []

abbrev pub track_rows : List Row
track_rows =
    only string (codes "track_artist") (codes "icy-meta-track-artist")
    ∷ only string (codes "track_album") (codes "icy-meta-track-album")
    ∷ only string (codes "track_title") (codes "icy-meta-track-title")
    ∷ only string (codes "track_year") (codes "icy-meta-track-year")
    ∷ only string (codes "track_isrc") (codes "icy-meta-track-isrc")
    ∷ only string (codes "track_artwork") (codes "icy-meta-track-artwork")
    ∷ only string (codes "track_buy_url") (codes "icy-meta-track-buy-url")
    ∷ only string (codes "track_label") (codes "icy-meta-track-label")
    ∷ only string (codes "track_bpm") (codes "icy-meta-track-bpm")
    ∷ []

abbrev pub podcast_rows : List Row
podcast_rows =
    both string (codes "podcast_host") (codes "icy-meta-podcast-host") (codes "icy-podcast-host")
    ∷ both string (codes "podcast_rss") (codes "icy-meta-podcast-rss") (codes "icy-podcast-rss")
    ∷ both string (codes "podcast_episode") (codes "icy-meta-podcast-episode")
        (codes "icy-podcast-episode")
    ∷ both string (codes "podcast_duration") (codes "icy-meta-duration") (codes "icy-duration")
    ∷ both string (codes "podcast_language") (codes "icy-meta-language") (codes "icy-language")
    ∷ only string (codes "podcast_rating") (codes "icy-meta-podcast-rating")
    ∷ []

abbrev pub audio_rows : List Row
audio_rows =
    only string (codes "audio_codec") (codes "icy-meta-audio-codec")
    ∷ only string (codes "audio_samplerate") (codes "icy-meta-audio-samplerate")
    ∷ only string (codes "audio_channels") (codes "icy-meta-audio-channels")
    ∷ only string (codes "audio_quality") (codes "icy-meta-audio-quality")
    ∷ only integer (codes "audio_lossless") (codes "icy-meta-audio-lossless")
    ∷ []

abbrev pub video_rows : List Row
video_rows =
    both string (codes "video_type") (codes "icy-meta-video-type") (codes "icy-video-type")
    ∷ both string (codes "video_link") (codes "icy-meta-video-link") (codes "icy-video-link")
    ∷ both string (codes "video_title") (codes "icy-meta-video-title") (codes "icy-video-title")
    ∷ both string (codes "video_platform") (codes "icy-meta-video-platform")
        (codes "icy-video-platform")
    ∷ both string (codes "video_resolution") (codes "icy-meta-video-resolution")
        (codes "icy-video-resolution")
    ∷ only string (codes "video_rating") (codes "icy-meta-video-rating")
    ∷ only string (codes "video_codec") (codes "icy-meta-video-codec")
    ∷ only string (codes "video_framerate") (codes "icy-meta-video-framerate")
    ∷ only string (codes "video_bitrate") (codes "icy-meta-video-bitrate")
    ∷ only string (codes "video_aspect") (codes "icy-meta-video-aspect")
    ∷ only string (codes "video_hdr") (codes "icy-meta-video-hdr")
    ∷ only string (codes "video_thumbnail") (codes "icy-meta-video-thumbnail")
    ∷ only string (codes "video_duration") (codes "icy-meta-video-duration")
    ∷ []

abbrev pub social_rows : List Row
social_rows =
    both string (codes "social_twitter") (codes "icy-meta-social-twitter")
      (codes "icy-social-twitter")
    ∷ both string (codes "social_instagram") (codes "icy-meta-social-ig") (codes "icy-social-ig")
    ∷ both string (codes "social_tiktok") (codes "icy-meta-social-tiktok")
        (codes "icy-social-tiktok")
    ∷ only string (codes "social_facebook") (codes "icy-meta-social-facebook")
    ∷ only string (codes "social_youtube") (codes "icy-meta-social-youtube")
    ∷ only string (codes "social_bluesky") (codes "icy-meta-social-bluesky")
    ∷ only string (codes "social_website") (codes "icy-meta-social-website")
    ∷ only string (codes "tip_url") (codes "icy-meta-tip-url")
    ∷ only string (codes "chat_url") (codes "icy-meta-chat-url")
    ∷ both string (codes "emoji") (codes "icy-meta-emoji") (codes "icy-emoji")
    ∷ both string (codes "hashtags") (codes "icy-meta-hashtags") (codes "icy-hashtags")
    ∷ []

abbrev pub listener_rows : List Row
listener_rows =
    only string (codes "listener_peak") (codes "icy-meta-listener-peak")
    ∷ only string (codes "listener_count") (codes "icy-meta-listener-count")
    ∷ only string (codes "like_count") (codes "icy-meta-like-count")
    ∷ only string (codes "share_url") (codes "icy-meta-share-url")
    ∷ only string (codes "request_url") (codes "icy-meta-request-url")
    ∷ []

abbrev pub broadcast_rows : List Row
broadcast_rows =
    only string (codes "cdn_region") (codes "icy-meta-cdn-region")
    ∷ only string (codes "relay_origin") (codes "icy-meta-relay-origin")
    ∷ only string (codes "stream_failover") (codes "icy-meta-stream-failover")
    ∷ only string (codes "stream_quality_tier") (codes "icy-meta-stream-quality-tier")
    ∷ []

abbrev pub notice_rows : List Row
notice_rows =
    only string (codes "notice_board") (codes "icy-meta-notice-board")
    ∷ only string (codes "upcoming_show") (codes "icy-meta-upcoming-show")
    ∷ only string (codes "emergency_alert") (codes "icy-meta-emergency-alert")
    ∷ []

abbrev pub access_rows : List Row
access_rows =
    both string (codes "auth_token") (codes "icy-meta-auth-token") (codes "icy-auth-token")
    ∷ both integer (codes "nsfw") (codes "icy-meta-nsfw") (codes "icy-nsfw")
    ∷ both integer (codes "ai_generated") (codes "icy-meta-ai-generated") (codes "icy-ai-generated")
    ∷ both string (codes "geo_region") (codes "icy-meta-geo-region") (codes "icy-geo-region")
    ∷ []

abbrev pub compliance_rows : List Row
compliance_rows =
    only string (codes "content_rating") (codes "icy-meta-content-rating")
    ∷ only string (codes "parental_advisory") (codes "icy-meta-parental-advisory")
    ∷ only string (codes "dmca_compliant") (codes "icy-meta-dmca-compliant")
    ∷ []

abbrev pub verification_rows : List Row
verification_rows =
    both string (codes "certificate_verify") (codes "icy-meta-certificate-verify")
      (codes "icy-certificate-verify")
    ∷ both string (codes "verification_status") (codes "icy-meta-verification-status")
        (codes "icy-verification-status")
    ∷ []

abbrev pub all_rows : List Row
all_rows =
    version_rows ++ core_rows ++ station_rows ++ show_rows ++ host_rows ++ track_rows
    ++ podcast_rows ++ audio_rows ++ video_rows ++ social_rows ++ listener_rows ++ broadcast_rows
    ++ notice_rows ++ access_rows ++ compliance_rows ++ verification_rows
