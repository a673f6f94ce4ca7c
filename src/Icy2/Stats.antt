-- ===== src/Icy2/Stats.antt =====
-- src/icy2_meta.c, lines 524 to 733: the members that `icy2_meta_copy_to_stats` reports, by section:
-- the member, the test that it makes, and the name of the statistic.
use mcaster1dnas.Base.{List, [], codes, ◌++◌, ◌∷◌}
use mcaster1dnas.Icy2.Rows.{StatRow, given, not_negative, positive, stat}

abbrev pub version_stats : List StatRow
version_stats = stat given (codes "metadata_version") (codes "icy2-version") ∷ []

abbrev pub core_stats : List StatRow
core_stats =
    stat given (codes "station_id") (codes "icy2-station-id")
    ∷ stat given (codes "station_name") (codes "server_name")
    ∷ stat given (codes "station_url") (codes "server_url")
    ∷ stat given (codes "station_genre") (codes "genre")
    ∷ stat positive (codes "station_bitrate") (codes "bitrate")
    ∷ stat not_negative (codes "station_public") (codes "public")
    ∷ []

abbrev pub station_stats : List StatRow
station_stats =
    stat given (codes "station_slogan") (codes "icy2-station-slogan")
    ∷ stat given (codes "station_logo") (codes "icy2-station-logo")
    ∷ stat given (codes "station_founded") (codes "icy2-station-founded")
    ∷ stat given (codes "station_type") (codes "icy2-station-type")
    ∷ stat given (codes "station_country") (codes "icy2-station-country")
    ∷ []

abbrev pub show_stats : List StatRow
show_stats =
    stat given (codes "show_title") (codes "icy2-show-title")
    ∷ stat given (codes "show_episode") (codes "icy2-show-episode")
    ∷ stat given (codes "show_season") (codes "icy2-show-season")
    ∷ stat given (codes "show_start_time") (codes "icy2-show-start-time")
    ∷ stat given (codes "show_end_time") (codes "icy2-show-end-time")
    ∷ stat given (codes "playlist_name") (codes "icy2-playlist-name")
    ∷ stat not_negative (codes "autodj") (codes "icy2-autodj")
    ∷ stat given (codes "stream_session_id") (codes "icy2-stream-session-id")
    ∷ []

abbrev pub host_stats : List StatRow
host_stats =
    stat given (codes "dj_handle") (codes "icy2-dj-handle")
    ∷ stat given (codes "dj_bio") (codes "icy2-dj-bio")
    ∷ stat given (codes "dj_showrating") (codes "icy2-dj-showrating")
    ∷ stat given (codes "dj_photo") (codes "icy2-dj-photo")
    ∷ []

abbrev pub track_stats : List StatRow
track_stats =
    stat given (codes "track_artist") (codes "icy2-track-artist")
    ∷ stat given (codes "track_album") (codes "icy2-track-album")
    ∷ stat given (codes "track_title") (codes "icy2-track-title")
    ∷ stat given (codes "track_year") (codes "icy2-track-year")
    ∷ stat given (codes "track_isrc") (codes "icy2-track-isrc")
    ∷ stat given (codes "track_artwork") (codes "icy2-track-artwork")
    ∷ stat given (codes "track_buy_url") (codes "icy2-track-buy-url")
    ∷ stat given (codes "track_label") (codes "icy2-track-label")
    ∷ stat given (codes "track_bpm") (codes "icy2-track-bpm")
    ∷ []

abbrev pub podcast_stats : List StatRow
podcast_stats =
    stat given (codes "podcast_host") (codes "icy2-podcast-host")
    ∷ stat given (codes "podcast_rss") (codes "icy2-podcast-rss")
    ∷ stat given (codes "podcast_episode") (codes "icy2-podcast-episode")
    ∷ stat given (codes "podcast_duration") (codes "icy2-duration")
    ∷ stat given (codes "podcast_language") (codes "icy2-language")
    ∷ stat given (codes "podcast_rating") (codes "icy2-podcast-rating")
    ∷ []

abbrev pub audio_stats : List StatRow
audio_stats =
    stat given (codes "audio_codec") (codes "icy2-audio-codec")
    ∷ stat given (codes "audio_samplerate") (codes "icy2-audio-samplerate")
    ∷ stat given (codes "audio_channels") (codes "icy2-audio-channels")
    ∷ stat given (codes "audio_quality") (codes "icy2-audio-quality")
    ∷ stat not_negative (codes "audio_lossless") (codes "icy2-audio-lossless")
    ∷ []

abbrev pub video_stats : List StatRow
video_stats =
    stat given (codes "video_type") (codes "icy2-video-type")
    ∷ stat given (codes "video_link") (codes "icy2-video-link")
    ∷ stat given (codes "video_title") (codes "icy2-video-title")
    ∷ stat given (codes "video_platform") (codes "icy2-video-platform")
    ∷ stat given (codes "video_resolution") (codes "icy2-video-resolution")
    ∷ stat given (codes "video_rating") (codes "icy2-video-rating")
    ∷ stat given (codes "video_codec") (codes "icy2-video-codec")
    ∷ stat given (codes "video_framerate") (codes "icy2-video-framerate")
    ∷ stat given (codes "video_bitrate") (codes "icy2-video-bitrate")
    ∷ stat given (codes "video_aspect") (codes "icy2-video-aspect")
    ∷ stat given (codes "video_hdr") (codes "icy2-video-hdr")
    ∷ stat given (codes "video_thumbnail") (codes "icy2-video-thumbnail")
    ∷ stat given (codes "video_duration") (codes "icy2-video-duration")
    ∷ []

abbrev pub social_stats : List StatRow
social_stats =
    stat given (codes "social_twitter") (codes "icy2-social-twitter")
    ∷ stat given (codes "social_instagram") (codes "icy2-social-instagram")
    ∷ stat given (codes "social_tiktok") (codes "icy2-social-tiktok")
    ∷ stat given (codes "social_facebook") (codes "icy2-social-facebook")
    ∷ stat given (codes "social_youtube") (codes "icy2-social-youtube")
    ∷ stat given (codes "social_bluesky") (codes "icy2-social-bluesky")
    ∷ stat given (codes "social_website") (codes "icy2-social-website")
    ∷ stat given (codes "tip_url") (codes "icy2-tip-url")
    ∷ stat given (codes "chat_url") (codes "icy2-chat-url")
    ∷ stat given (codes "emoji") (codes "icy2-emoji")
    ∷ stat given (codes "hashtags") (codes "icy2-hashtags")
    ∷ []

abbrev pub listener_stats : List StatRow
listener_stats =
    stat given (codes "listener_peak") (codes "icy2-listener-peak")
    ∷ stat given (codes "listener_count") (codes "icy2-listener-count")
    ∷ stat given (codes "like_count") (codes "icy2-like-count")
    ∷ stat given (codes "share_url") (codes "icy2-share-url")
    ∷ stat given (codes "request_url") (codes "icy2-request-url")
    ∷ []

abbrev pub broadcast_stats : List StatRow
broadcast_stats =
    stat given (codes "cdn_region") (codes "icy2-cdn-region")
    ∷ stat given (codes "relay_origin") (codes "icy2-relay-origin")
    ∷ stat given (codes "stream_failover") (codes "icy2-stream-failover")
    ∷ stat given (codes "stream_quality_tier") (codes "icy2-stream-quality-tier")
    ∷ []

abbrev pub notice_stats : List StatRow
notice_stats =
    stat given (codes "notice_board") (codes "icy2-notice-board")
    ∷ stat given (codes "upcoming_show") (codes "icy2-upcoming-show")
    ∷ stat given (codes "emergency_alert") (codes "icy2-emergency-alert")
    ∷ []

abbrev pub access_stats : List StatRow
access_stats =
    stat given (codes "auth_token") (codes "icy2-auth-token")
    ∷ stat not_negative (codes "nsfw") (codes "icy2-nsfw")
    ∷ stat not_negative (codes "ai_generated") (codes "icy2-ai-generated")
    ∷ stat given (codes "geo_region") (codes "icy2-geo-region")
    ∷ []

abbrev pub compliance_stats : List StatRow
compliance_stats =
    stat given (codes "content_rating") (codes "icy2-content-rating")
    ∷ stat given (codes "parental_advisory") (codes "icy2-parental-advisory")
    ∷ stat given (codes "dmca_compliant") (codes "icy2-dmca-compliant")
    ∷ []

abbrev pub verification_stats : List StatRow
verification_stats =
    stat given (codes "certificate_verify") (codes "icy2-certificate-verify")
    ∷ stat given (codes "verification_status") (codes "icy2-verification-status")
    ∷ []

abbrev pub all_stats : List StatRow
all_stats =
    version_stats ++ core_stats ++ station_stats ++ show_stats ++ host_stats ++ track_stats
    ++ podcast_stats ++ audio_stats ++ video_stats ++ social_stats ++ listener_stats
    ++ broadcast_stats ++ notice_stats ++ access_stats ++ compliance_stats ++ verification_stats
