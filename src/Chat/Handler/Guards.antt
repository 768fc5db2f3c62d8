-- ===== src/Chat/Handler/Guards.antt =====
-- What stands between a chat request and a provider.
use ai_serving_backend.Prelude.{if◌then◌else◌}
use ai_serving_backend.Schemas.{ChatCompletionRequest, NormalizedChatRequest, to_normalized}
use ai_serving_backend.Pii.{Scanner}
use ai_serving_backend.Pii.Mask.{mask_messages}
use ai_serving_backend.Chat.Dispatch.{ChatSettings}

-- what a provider may see of a request
unfoldable pub outgoing : Scanner → ChatSettings → ChatCompletionRequest → NormalizedChatRequest
unfolding to_normalized
outgoing scanner settings payload =
    let r = to_normalized payload in
    if settings.pii_masking_enabled
    then record r { messages = (mask_messages scanner r.messages settings.pii_types).0 }
    else r
