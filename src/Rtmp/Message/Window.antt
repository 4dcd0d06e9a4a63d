-- ===== src/Rtmp/Message/Window.antt =====
-- The acknowledgement cadence (librtmp/message.go).
