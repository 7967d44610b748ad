-- ===== src/Service/Keys/Answered.antt =====
-- What a lookup finds after a refresh of the keys: src/service/oidc_token_verifier.cpp.
