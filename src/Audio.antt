-- ===== src/Audio.antt =====
-- Audio: core/media.go and utils/audio. The children hold the WAV container, the channel
-- conversion, and `ConvertAudioChunk` with the interface of the codecs that it calls.
pub mod Bytes
pub mod Wav
pub mod Channels
pub mod Convert
